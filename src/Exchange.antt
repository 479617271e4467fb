-- ===== src/Exchange.antt =====
-- The exchange library (contrib/exchange, a submodule), which names the actors of the program by
-- ids and hands messages to them. It is a parameter: a state, and what the program calls on it.
use modbus_gateway.Base.{ℕ, ◌≡◌, ◌≢◌, Bool, true, false}

pub record Exchange (Table : Type 0) : Type 0 where
  -- exchange::defaultId
  pub default_id : ℕ
  -- Add(actor) gives the actor's id, which is set on it; Delete(id).
  pub add : Table → ℕ × Table
  pub delete : ℕ → Table → Table
  -- Whether an actor has this id.
  pub registered : Table → ℕ → Bool

-- What is documented: a new id is not in use, nor the default id, and only that id changes.
pub record Laws {Table : Type 0} (exchange : Exchange Table) : Type 0 where
  pub add_fresh : (t : Table) → exchange.registered t (exchange.add t).0 ≡ false
  pub add_registered :
      (t : Table) → exchange.registered (exchange.add t).1 (exchange.add t).0 ≡ true
  pub add_keeps :
      (t : Table) (i : ℕ)
      → exchange.registered t i ≡ true
      → exchange.registered (exchange.add t).1 i ≡ true
  pub add-ne-default : (t : Table) → (exchange.add t).0 ≢ exchange.default_id
  pub delete_unregistered :
      (t : Table) (i : ℕ) → exchange.registered (exchange.delete i t) i ≡ false
  pub delete_keeps :
      (t : Table) (i j : ℕ)
      → i ≢ j
      → exchange.registered (exchange.delete i t) j ≡ exchange.registered t j

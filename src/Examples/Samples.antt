-- ===== src/Examples/Samples.antt =====
-- Small instances of the libraries that are parameters, with the documented behaviour.
use modbus_gateway.Base.{
  ℕ, suc, ◌+◌, ◌<◌, ◌≡◌, ◌≢◌, refl, Bool, true, false, ◌||◌, List, [], ◌∷◌, leb, ◌==◌,
  if◌then◌else◌, Bool-cases, inl, inr, arith,
}
use modbus_gateway.Modbus
use modbus_gateway.Modbus.{Modbus, FrameType, tcp, rtu, ascii, UnitIds}
use modbus_gateway.Exchange
use modbus_gateway.Exchange.{Exchange}

-- A frame with its header; the check asks for a size of at least four, eight for TCP.
pub record Frame : Type 0 where
  pub type : FrameType
  pub unit_id : ℕ
  pub size : ℕ
  pub transaction_id : ℕ
  pub pdu : List ℕ
  pub fits : Bool

abbrev pub modbus : Modbus Frame
modbus = record {
  transaction_id_limit = 65535;
  make_buffer =
      λ f. record { type = f; unit_id = 0; size = 260; transaction_id = 0; pdu = []; fits = false };
  get_type = λ b. b.type;
  get_unit_id = λ b. b.unit_id;
  get_adu_size = λ b. b.size;
  set_adu_size = λ n b. (leb n 260, record b { size = n });
  convert_to = λ f b. record b { type = f; fits = false };
  update = λ b. record b { fits = true };
  check_no_error = λ b. leb 4 b.size;
  tcp_update = λ b. record b { fits = true };
  tcp_check_no_error = λ b. leb 8 b.size;
  get_transaction_id = λ b. b.transaction_id;
  set_transaction_id = λ t b. record b { transaction_id = t };
}

pub modbus-Laws : Modbus.Laws modbus
modbus-Laws = record {
  get_transaction_id-set_transaction_id = λ t b. refl;
  get_type-convert_to = λ f b. refl;
  get_type-update = λ b. refl;
  get_unit_id-convert_to = λ f b. refl;
  get_unit_id-update = λ b. refl;
  get_unit_id-tcp_update = λ b. refl;
  get_unit_id-set_transaction_id = λ t b. refl;
  get_type-tcp_update = λ b. refl;
  get_type-set_transaction_id = λ t b. refl;
  get_pdu = λ b. b.pdu;
  get_pdu-convert_to = λ f b. refl;
  get_pdu-update = λ b. refl;
  get_pdu-tcp_update = λ b. refl;
  get_pdu-set_transaction_id = λ t b. refl;
  is_updated = λ b. b.fits;
  is_updated-update = λ b. refl;
  is_updated-tcp_update = λ b e. refl;
  is_updated-set_transaction_id = λ t b e. refl;
}

abbrev pub ids : UnitIds
ids = record { limit = 255; min = 1; max = 247 }

-- The exchange as the list of the ids in use; the next id is above all of them.
abbrev contains : List ℕ → ℕ → Bool
contains [] i = false
contains (j ∷ js) i = j == i || contains js i

abbrev remove : ℕ → List ℕ → List ℕ
remove i [] = []
remove i (j ∷ js) = if j == i then remove i js else j ∷ remove i js

abbrev next_id : List ℕ → ℕ
next_id [] = 1
next_id (j ∷ js) = suc j + next_id js

abbrev pub exchange : Exchange (List ℕ)
exchange = record {
  default_id = 0;
  add = λ t. (next_id t, next_id t ∷ t);
  delete = remove;
  registered = contains;
}

contains_lt : (t : List ℕ) (i : ℕ) → contains t i ≡ true → i < next_id t
contains_lt [] i h = cc
contains_lt (j ∷ js) i h = ground (arith, contains_lt js i)

next_id_fresh : (t : List ℕ) → contains t (next_id t) ≡ false
next_id_fresh t = elim (Bool-cases (contains t (next_id t))) [
  | inl e ↦ absurd (omega (arith, contains_lt t (next_id t) e))
  | inr e ↦ e
]

next_id_pos : (t : List ℕ) → next_id t ≢ 0
next_id_pos [] h = absurd (omega (arith, h))
next_id_pos (j ∷ js) h = absurd (omega (arith, h))

remove_removed : (t : List ℕ) (i : ℕ) → contains (remove i t) i ≡ false
remove_removed [] i = refl
remove_removed (j ∷ js) i = ground (arith, remove_removed js i)

remove_keeps : (t : List ℕ) (i j : ℕ) → i ≢ j → contains (remove i t) j ≡ contains t j
remove_keeps [] i j n = refl
remove_keeps (k ∷ ks) i j n = ground (arith, remove_keeps ks i j n)

pub exchange-Laws : Exchange.Laws exchange
exchange-Laws = record {
  add_fresh = next_id_fresh;
  add_registered = λ t. ground arith;
  add_keeps = λ t i h. ground arith;
  add-ne-default = next_id_pos;
  delete_unregistered = remove_removed;
  delete_keeps = remove_keeps;
}

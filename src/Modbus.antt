-- ===== src/Modbus.antt =====
-- The modbus library (contrib/modbus, a submodule) as the program calls it: the buffers and their
-- frame wrappers. The code is not part of the repository, so it is a parameter.
use modbus_gateway.Base.{ℕ, ◌%◌, suc, ◌≡◌, ◌∙◌, Bool, true, List}

-- modbus::FrameType, with the enumerators that the program names.
pub data FrameType : Type 0 where
  tcp rtu ascii : FrameType

-- std::numeric_limits<modbus::UnitId>::max(), modbus::unitIdMin and modbus::unitIdMax.
pub record UnitIds : Type 0 where
  pub limit : ℕ
  pub min : ℕ
  pub max : ℕ

pub record Modbus (Buf : Type 0) : Type 0 where
  -- std::numeric_limits<modbus::TransactionId>::max()
  pub transaction_id_limit : ℕ
  -- ModbusBuffer(FrameType), GetType, GetUnitId, GetAduSize
  pub make_buffer : FrameType → Buf
  pub get_type : Buf → FrameType
  pub get_unit_id : Buf → ℕ
  pub get_adu_size : Buf → ℕ
  -- SetAduSize answers whether the size is valid
  pub set_adu_size : ℕ → Buf → Bool × Buf
  pub convert_to : FrameType → Buf → Buf
  -- MakeModbusBufferWrapper(b)->Update(), ->Check() == CheckFrameResult::NoError
  pub update : Buf → Buf
  pub check_no_error : Buf → Bool
  -- ModbusBufferTcpWrapper(b).Update(), .Check(), .GetTransactionId(), .SetTransactionId()
  pub tcp_update : Buf → Buf
  pub tcp_check_no_error : Buf → Bool
  pub get_transaction_id : Buf → ℕ
  pub set_transaction_id : ℕ → Buf → Buf

-- `++id` on an unsigned type whose largest value is `limit`.
abbrev pub increment : ℕ → ℕ → ℕ
increment limit id = suc id % suc limit

-- What is documented of the buffers: the fields of a TCP header are read as they were written, a
-- conversion sets the type, a frame keeps its unit id, its function code and its data when it is
-- converted or its header and checksum are updated, and fits its contents after an update.
pub record Laws {Buf : Type 0} (modbus : Modbus Buf) : Type 0 where
  pub get_transaction_id-set_transaction_id :
      (t : ℕ) (b : Buf) → modbus.get_transaction_id (modbus.set_transaction_id t b) ≡ t
  pub get_type-convert_to : (f : FrameType) (b : Buf) → modbus.get_type (modbus.convert_to f b) ≡ f
  pub get_type-update : (b : Buf) → modbus.get_type (modbus.update b) ≡ modbus.get_type b
  pub get_unit_id-convert_to :
      (f : FrameType) (b : Buf) → modbus.get_unit_id (modbus.convert_to f b) ≡ modbus.get_unit_id b
  pub get_unit_id-update : (b : Buf) → modbus.get_unit_id (modbus.update b) ≡ modbus.get_unit_id b
  pub get_unit_id-tcp_update :
      (b : Buf) → modbus.get_unit_id (modbus.tcp_update b) ≡ modbus.get_unit_id b
  pub get_unit_id-set_transaction_id :
      (t : ℕ) (b : Buf) → modbus.get_unit_id (modbus.set_transaction_id t b) ≡ modbus.get_unit_id b
  pub get_type-tcp_update : (b : Buf) → modbus.get_type (modbus.tcp_update b) ≡ modbus.get_type b
  pub get_type-set_transaction_id :
      (t : ℕ) (b : Buf) → modbus.get_type (modbus.set_transaction_id t b) ≡ modbus.get_type b
  -- the function code and the data, which the program only passes on
  pub get_pdu : Buf → List ℕ
  pub get_pdu-convert_to : (f : FrameType) (b : Buf) → get_pdu (modbus.convert_to f b) ≡ get_pdu b
  pub get_pdu-update : (b : Buf) → get_pdu (modbus.update b) ≡ get_pdu b
  pub get_pdu-tcp_update : (b : Buf) → get_pdu (modbus.tcp_update b) ≡ get_pdu b
  pub get_pdu-set_transaction_id :
      (t : ℕ) (b : Buf) → get_pdu (modbus.set_transaction_id t b) ≡ get_pdu b
  -- whether the length and the checksum in the frame fit its contents
  pub is_updated : Buf → Bool
  pub is_updated-update : (b : Buf) → is_updated (modbus.update b) ≡ true
  pub is_updated-tcp_update :
      (b : Buf) → modbus.get_type b ≡ tcp → is_updated (modbus.tcp_update b) ≡ true
  pub is_updated-set_transaction_id :
      (t : ℕ) (b : Buf)
      → modbus.get_type b ≡ tcp
      → is_updated (modbus.set_transaction_id t b) ≡ is_updated b

module _ {Buf : Type 0} (modbus : Modbus Buf) (laws : Laws modbus) where
  -- The frame has this type and the unit id, the function code and the data of the buffer, and its
  -- length and checksum fit.
  abbrev pub Carries : FrameType → Buf → Buf → Type 0
  Carries f b frame =
      (modbus.get_type frame ≡ f)
      × (modbus.get_unit_id frame ≡ modbus.get_unit_id b)
      × (laws.get_pdu frame ≡ laws.get_pdu b)
      × (laws.is_updated frame ≡ true)

  pub update-Carries :
      (f : FrameType) (b : Buf) → Carries f b (modbus.update (modbus.convert_to f b))
  update-Carries f b =
      let c = modbus.convert_to f b in
      (
        laws.get_type-update c ∙ laws.get_type-convert_to f b,
        laws.get_unit_id-update c ∙ laws.get_unit_id-convert_to f b,
        laws.get_pdu-update c ∙ laws.get_pdu-convert_to f b,
        laws.is_updated-update c,
      )

  pub set_transaction_id-Carries :
      (t : ℕ) (b : Buf)
      → Carries tcp b (modbus.set_transaction_id t (modbus.tcp_update (modbus.convert_to tcp b)))
  set_transaction_id-Carries t b =
      let c = modbus.convert_to tcp b in
      let u = modbus.tcp_update c in
      let type : modbus.get_type u ≡ tcp =
        laws.get_type-tcp_update c ∙ laws.get_type-convert_to tcp b in
      (
        laws.get_type-set_transaction_id t u ∙ type,
        laws.get_unit_id-set_transaction_id t u
            ∙ laws.get_unit_id-tcp_update c
            ∙ laws.get_unit_id-convert_to tcp b,
        laws.get_pdu-set_transaction_id t u
            ∙ laws.get_pdu-tcp_update c
            ∙ laws.get_pdu-convert_to tcp b,
        laws.is_updated-set_transaction_id t u type
            ∙ laws.is_updated-tcp_update c (laws.get_type-convert_to tcp b),
      )

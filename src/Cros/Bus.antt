-- ===== src/Cros/Bus.antt =====
-- The part of libdbus that src/platform-cros.c calls to look at a message, as an interface with what
-- its manual says of the two tests.
use tlsdate.Base.{ℕ, ◌≡◌, Bool, true, List, Bytes}

-- The arguments of a message, as its iterator goes through them.
pub data Arg : Type 0 where
  string : Bytes → Arg
  object_path : Bytes → Arg
  variant : Arg → Arg
  other : Arg

pub data MessageType : Type 0 where
  method_call method_return error signal : MessageType

pub record Dbus : Type 1 where
  pub Message : Type 0
  pub get_type : Message → MessageType
  pub has_path : Message → Bool
  pub args : Message → List Arg
  pub reply_serial : Message → ℕ
  -- `dbus_message_is_signal` with an interface and a member, and `dbus_message_is_error` with a name.
  pub is_signal : Message → Bytes → Bytes → Bool
  pub is_error : Message → Bytes → Bool
  pub is_signal-type :
      (m : Message) (interface member : Bytes)
      → is_signal m interface member ≡ true
      → get_type m ≡ MessageType.signal
  pub is_signal-member :
      (m : Message) (interface member interface' member' : Bytes)
      → is_signal m interface member ≡ true
      → is_signal m interface' member' ≡ true
      → (interface ≡ interface') × (member ≡ member')
  pub is_error-type :
      (m : Message) (name : Bytes) → is_error m name ≡ true → get_type m ≡ MessageType.error

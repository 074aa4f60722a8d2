-- ===== src/Tests/Buses.antt =====
-- A bus whose messages are plain data, for the tests of src/platform-cros.c.
use tlsdate.Base.{
  ℕ, ◌≡◌, refl, sym, ◌∙◌, Bool, true, false, ◌&&◌, List, [], arith, Bytes, str_eq, str_eq_iff,
}
use tlsdate.Cros.Bus.{Arg, Dbus, MessageType}

pub data Message : Type 0 where
  signalled : Bytes → Bytes → List Arg → Message
  returned : ℕ → Message
  failed : Bytes → Message

abbrev type_of : Message → MessageType
type_of (signalled interface member args) = MessageType.signal
type_of (returned serial) = MessageType.method_return
type_of (failed name) = MessageType.error

abbrev args_of : Message → List Arg
args_of (signalled interface member args) = args
args_of _ = []

abbrev serial_in : Message → ℕ
serial_in (returned serial) = serial
serial_in _ = 0

abbrev is_signal_of : Message → Bytes → Bytes → Bool
is_signal_of (signalled interface member args) i m = str_eq interface i && str_eq member m
is_signal_of _ i m = false

abbrev is_error_of : Message → Bytes → Bool
is_error_of (failed name) n = str_eq name n
is_error_of _ n = false

both_of : (a b : Bool) → (a && b) ≡ true → (a ≡ true) × (b ≡ true)
both_of a b h = ground arith

pub signal-type :
    (m : Message) (i n : Bytes) → is_signal_of m i n ≡ true → type_of m ≡ MessageType.signal
signal-type (signalled interface member args) i n h = refl
signal-type (returned serial) i n h = cc
signal-type (failed name) i n h = cc

pub error-type : (m : Message) (n : Bytes) → is_error_of m n ≡ true → type_of m ≡ MessageType.error
error-type (signalled interface member args) n h = cc
error-type (returned serial) n h = cc
error-type (failed name) n h = refl

pub signal-member :
    (m : Message) (i n i' n' : Bytes)
    → is_signal_of m i n ≡ true
    → is_signal_of m i' n' ≡ true
    → (i ≡ i') × (n ≡ n')
signal-member (signalled interface member args) i n i' n' h k =
    let (a, b) = both_of _ _ h in
    let (c, d) = both_of _ _ k in
    (
      sym ((str_eq_iff interface i).0 a) ∙ (str_eq_iff interface i').0 c,
      sym ((str_eq_iff member n).0 b) ∙ (str_eq_iff member n').0 d,
    )
signal-member (returned serial) i n i' n' h k = cc
signal-member (failed name) i n i' n' h k = cc

abbrev pub bus : Dbus
bus = record {
  Message = Message;
  get_type = type_of;
  has_path = λ m. true;
  args = args_of;
  reply_serial = serial_in;
  is_signal = is_signal_of;
  is_error = is_error_of;
  is_signal-type = signal-type;
  is_signal-member = signal-member;
  is_error-type = error-type;
}

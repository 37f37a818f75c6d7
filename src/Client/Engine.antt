-- ===== src/Client/Engine.antt =====
-- `VAppEngine` of client-sdk/src/vanadium_client.rs: its state, its errors, and the exchange of a command for
-- a reply of the VM.
use vanadium.Prelude.{ℕ, if◌then◌else◌, Bool, true, false, String}
use vanadium.Prelude.{List, [], ◌∷◌, ◌++◌, Option, Outcome, ok, err, panic, map_err}
use vanadium.Message.{DeserializationError}
use vanadium.Client.Memory.{MemorySegment, MemorySegmentError}

-- The status words of client-sdk/src/apdu.rs.
pub data StatusWord : Type 0 where
  deny : StatusWord
  store_full : StatusWord
  incorrect_data : StatusWord
  not_supported : StatusWord
  wrong_p1p2 : StatusWord
  wrong_data_length : StatusWord
  ins_not_supported : StatusWord
  cla_not_supported : StatusWord
  bad_state : StatusWord
  signature_fail : StatusWord
  success : StatusWord
  interrupted_execution : StatusWord
  vm_runtime_error : StatusWord
  vapp_panic : StatusWord
  unknown : StatusWord

abbrev pub is_interrupted : StatusWord → Bool
is_interrupted StatusWord.deny = false
is_interrupted StatusWord.store_full = false
is_interrupted StatusWord.incorrect_data = false
is_interrupted StatusWord.not_supported = false
is_interrupted StatusWord.wrong_p1p2 = false
is_interrupted StatusWord.wrong_data_length = false
is_interrupted StatusWord.ins_not_supported = false
is_interrupted StatusWord.cla_not_supported = false
is_interrupted StatusWord.bad_state = false
is_interrupted StatusWord.signature_fail = false
is_interrupted StatusWord.success = false
is_interrupted StatusWord.interrupted_execution = true
is_interrupted StatusWord.vm_runtime_error = false
is_interrupted StatusWord.vapp_panic = false
is_interrupted StatusWord.unknown = false

-- What is boxed in a `GenericError`.
pub data Cause : Type 0 where
  memory_segment : MemorySegmentError → Cause
  message : DeserializationError → Cause

pub data VAppEngineError (E : Type 0) : Type 0 where
  manifest_serialization_error : VAppEngineError E
  invalid_command_code : VAppEngineError E
  transport_error : E → VAppEngineError E
  access_violation : VAppEngineError E
  interrupted_execution_expected : VAppEngineError E
  response_error : String → VAppEngineError E
  vm_runtime_error : VAppEngineError E
  vapp_panic : VAppEngineError E
  app_not_registered : VAppEngineError E
  store_full : VAppEngineError E
  unexpected_status_word : StatusWord → VAppEngineError E
  generic_error : Cause → VAppEngineError E

abbrev pub has_bytes : List ℕ → Bool
has_bytes [] = false
has_bytes (b ∷ bytes) = true

abbrev pub Reply : Type 0
Reply = StatusWord × List ℕ

-- The transport: what it gives for each exchange, whatever is sent, and the data of the `Continue`
-- commands that were sent.
pub record Link (E : Type 0) : Type 0 where
  pub replies : List (Outcome E Reply)
  pub sent : List (List ℕ)

-- The fields that pages are served from. An HMAC of a code page is the list of its bytes.
pub record VAppEngine (E : Type 0) : Type 0 where
  pub code_seg : MemorySegment
  pub data_seg : MemorySegment
  pub stack_seg : MemorySegment
  pub transport : Link E
  pub code_hmacs : Option (List (List ℕ))

abbrev pub Result : Type 0 → Type 0 → Type 0
Result E A = Outcome (VAppEngineError E) A × VAppEngine E

abbrev pub Run : Type 0 → Type 0 → Type 0
Run E A = VAppEngine E → Result E A

module _ {E : Type 0} where
  abbrev pub continue_with : {A B : Type 0} → Result E A → (A → Run E B) → Result E B
  continue_with (ok a, e) f = f a e
  continue_with (err x, e) f = (err x, e)
  continue_with (panic, e) f = (panic, e)

  infixl 5 ◌>>=◌ ◌>>◌
  abbrev pub ◌>>=◌ : {A B : Type 0} → Run E A → (A → Run E B) → Run E B
  ◌>>=◌ m f e = continue_with (m e) f

  abbrev pub ◌>>◌ : {B : Type 0} → Run E (Unit {0}) → Run E B → Run E B
  m >> k = m >>= λ _. k

  abbrev pub pure : {A : Type 0} → A → Run E A
  pure a e = (ok a, e)

  abbrev pub fail : {A : Type 0} → VAppEngineError E → Run E A
  fail x e = (err x, e)

  -- `assert!` and an index or a conversion that may panic.
  abbrev pub assert : Bool → Run E (Unit {0})
  assert b e = if b then (ok tt, e) else (panic, e)

  abbrev pub check : Bool → VAppEngineError E → Run E (Unit {0})
  check b x e = if b then (ok tt, e) else (err x, e)

  -- `?` on an error that is boxed.
  abbrev pub received : {A : Type 0} → Outcome DeserializationError A → Run E A
  received r e = (map_err (λ x. generic_error (message x)) r, e)

  abbrev pub kept : {A : Type 0} → Outcome MemorySegmentError A → Run E A
  kept r e = (map_err (λ x. generic_error (memory_segment x)) r, e)

  -- After the last reply an exchange does not return, as if it had panicked.
  abbrev pub replied : List (Outcome E Reply) → Outcome E Reply × List (Outcome E Reply)
  replied [] = (panic, [])
  replied (reply ∷ replies) = (reply, replies)

  -- `transport.exchange(&apdu_continue(response))`
  unfoldable pub exchange : List ℕ → Run E Reply
  exchange response e =
      let (r, replies) = replied e.transport.replies in
      let link : Link E = record { replies = replies; sent = e.transport.sent ++ response ∷ [] } in
      (map_err transport_error r, record e { transport = link })

-- ===== src/Errors.antt =====
-- The exceptions that the modelled code raises, by class; their messages are left out. `save` is a
-- write of a row that carries a version: it raises if another process has written the row since it
-- was read.
use attendee.Base.{Bool, true, false}
use attendee.Base.Outcome.{Outcome, ok, raise}

pub data Error : Type 0 where
  value_error validation_error runtime_error integrity_error record_modified_error : Error
  type_error key_error attribute_error unexpected_event unexpected_from_state zero_division_error :
      Error

abbrev pub Result : Type 0 → Type 0
Result A = Outcome Error A

abbrev pub save : {A : Type 0} → Bool → A → Result A
save true row = raise record_modified_error
save false row = ok row

-- ===== src/Base/Errors.antt =====
-- What a Go call comes to: a value, an error that is returned, or a panic. The errors are those
-- that the code tells apart.

pub data Error : Type 0 where
  eof unexpected_eof closed_pipe broken_pipe : Error
  expired out_of_stream too_long bad_network server_failure bad_response : Error
  no_port blocked refused timeout bad_hex net_closed : Error

pub data Outcome {ℓ} (A : Type ℓ) : Type ℓ where
  ok : A → Outcome A
  fail : Error → Outcome A
  panic : Outcome A

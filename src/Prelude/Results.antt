-- ===== src/Prelude/Results.antt =====
-- What a call returns or the text of the exception that it raises.
use Prim.Native.String.{String}

pub data Result {ℓ} (A : Type ℓ) : Type ℓ where
  ok : A → Result A
  err : String → Result A

-- ===== src/Prelude/Values.antt =====
-- The plain values of the models.
use Prim.Native.Nat.{ℕ}
use mathlib.Core.Option.{Option}
use mathlib.Core.List.{List}
use nipo_science.Prelude.Tests.{Text, Eq}
use native.Mathlib.Decide.{ℕ_discrete}

-- A UUID as its 128-bit number.
abbrev pub Uuid : Type 0
Uuid = ℕ

-- Microseconds since 1970.
abbrev pub Timestamp : Type 0
Timestamp = ℕ

-- A digest in hexadecimal.
abbrev pub Sha256 : Type 0
Sha256 = Text

abbrev pub Bytes : Type 0
Bytes = List ℕ

unfoldable pub UuidPair-discrete : Discrete (Uuid × Uuid)
UuidPair-discrete = hlevel ℕ_discrete

instance abbrev pub uuid_pair_eq : Eq (Uuid × Uuid)
uuid_pair_eq = record { decide = UuidPair-discrete }

unfoldable pub UuidTriple-discrete : Discrete (Uuid × Uuid × Uuid)
UuidTriple-discrete = hlevel ℕ_discrete

instance abbrev pub uuid_triple_eq : Eq (Uuid × Uuid × Uuid)
uuid_triple_eq = record { decide = UuidTriple-discrete }

unfoldable pub OptionalText-discrete : Discrete (Option Text)
OptionalText-discrete = hlevel ℕ_discrete

instance abbrev pub optional_text_eq : Eq (Option Text)
optional_text_eq = record { decide = OptionalText-discrete }

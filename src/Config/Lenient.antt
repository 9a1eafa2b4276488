-- ===== src/Config/Lenient.antt =====
-- `decodeYAMLStrict` of daemon/internal/daemon/config/config.go and daemon/internal/daemon/config/lenient.go:
-- the two ways a file is decoded.
-- The vendored YAML decoder is a parameter: what it makes of a file over the defaults, and what it
-- complains of.
use host_health_mcp.Base.{
  ◌≡◌, ◌↔◌, refl, ap, ◌∙◌, Bytes, codes, Bool, true, Option, none, some, List, [], ◌∷◌, inl, inr,
  All, arith, Bool-cases, if◌then◌else◌,
}
use host_health_mcp.Base.Result.{Result, ok, err}
use host_health_mcp.Parsers.Scan.{contains}

-- What `Decode` with KnownFields returns beside the value: nothing, io.EOF, the list of a
-- *yaml.TypeError, or another error.
pub data Complaint : Type 0 where
  no_document : Complaint
  type_errors : List Bytes → Complaint
  malformed : Bytes → Complaint

pub data FileError : Type 0 where
  not_present : FileError
  not_read : Bytes → FileError

pub data LoadError : Type 0 where
  no_file : FileError → LoadError
  not_parsed : Complaint → LoadError

abbrev pub unknown_field : Bytes
unknown_field = codes "not found in type"

abbrev pub is_unknown_field : Bytes → Bool
is_unknown_field e = contains unknown_field e

-- The two lists of the loop over the errors.
unfoldable pub warnings_of : List Bytes → List Bytes
warnings_of [] = []
warnings_of (e ∷ es) = let rest = warnings_of es in if is_unknown_field e then e ∷ rest else rest

unfoldable pub fatal_of : List Bytes → List Bytes
fatal_of [] = []
fatal_of (e ∷ es) = let rest = fatal_of es in if is_unknown_field e then rest else e ∷ rest

-- A file's value with the decoder's complaint.
abbrev pub Decoded : Type 0 → Type 0
Decoded A = Result FileError (A × Option Complaint)

unfoldable pub decode_strict : {A : Type 0} → Decoded A → Result LoadError A
decode_strict (err e) = err (no_file e)
decode_strict (ok (a, none)) = ok a
decode_strict (ok (a, some c)) = err (not_parsed c)

abbrev unless_fatal : {A : Type 0} → A → List Bytes → List Bytes → List Bytes × Result LoadError A
unless_fatal a warnings [] = (warnings, ok a)
unless_fatal a warnings (f ∷ fs) = (warnings, err (not_parsed (type_errors (f ∷ fs))))

-- The warnings, and the value or the error.
unfoldable pub decode_lenient : {A : Type 0} → Decoded A → List Bytes × Result LoadError A
decode_lenient (err e) = ([], err (no_file e))
decode_lenient (ok (a, none)) = ([], ok a)
decode_lenient (ok (a, some no_document)) = ([], ok a)
decode_lenient (ok (a, some (malformed e))) = ([], err (not_parsed (malformed e)))
decode_lenient (ok (a, some (type_errors es))) = unless_fatal a (warnings_of es) (fatal_of es)

-- What the installer tolerates: no document, or unknown keys alone.
abbrev pub IsTolerated : Complaint → Type 0
IsTolerated no_document = Unit {0}
IsTolerated (malformed e) = ⊥
IsTolerated (type_errors es) = All (λ e. is_unknown_field e ≡ true) es

abbrev pub told : Complaint → List Bytes
told (type_errors es) = es
told no_document = []
told (malformed e) = []

all_unknown :
    (es : List Bytes)
    → All (λ e. is_unknown_field e ≡ true) es
    → (fatal_of es ≡ []) × (warnings_of es ≡ es)
unfolding fatal_of warnings_of
all_unknown [] all = (refl, refl)
all_unknown (e ∷ es) all = let (f, w) = all_unknown es all.1 in rw all.0 (f, ap (◌∷◌ e) w)

none_fatal : (es : List Bytes) → fatal_of es ≡ [] → All (λ e. is_unknown_field e ≡ true) es
unfolding fatal_of
none_fatal [] h = tt
none_fatal (e ∷ es) h = elim (Bool-cases (is_unknown_field e)) [
  | inl unknown ↦ (unknown, none_fatal es (ground (arith, h, unknown)))
  | inr fatal ↦ absurd (ground (arith, h, fatal))
]

unless_fatal-nil :
    {A : Type 0} (a : A) (ws fs : List Bytes) → (unless_fatal a ws fs).1 ≡ ok a → fs ≡ []
unless_fatal-nil a ws [] h = refl
unless_fatal-nil a ws (f ∷ fs) h = absurd (ground (arith, h))

-- A file with a complaint, which the daemon refuses, is accepted by the installer exactly if it holds no
-- document or every error is an unknown key; then there is a warning for each, and the value is the one
-- that the decoder made.
pub decode_lenient_iff :
    {A : Type 0} (a : A) (c : Complaint)
    → ((decode_strict (ok (a, some c)) ≡ err (not_parsed c))
        × (decode_lenient (ok (a, some c)) ≡ (told c, ok a)))
      ↔ IsTolerated c
unfolding decode_lenient decode_strict
decode_lenient_iff a no_document = (λ h. tt, λ t. (refl, refl))
decode_lenient_iff a (malformed e) = (λ h. absurd (ground (arith, h.1)), λ t. absurd t)
decode_lenient_iff a (type_errors es) = (
  λ h. none_fatal es (unless_fatal-nil a (warnings_of es) (fatal_of es) (ap (λ r. r.1) h.1)),
  λ all.
      let (f, w) = all_unknown es all in
      (refl, ap (λ fs. unless_fatal a (warnings_of es) fs) f ∙ ap (λ ws. (ws, ok a)) w),
)

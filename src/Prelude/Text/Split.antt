-- ===== src/Prelude/Text/Split.antt =====
-- `str::split`, `str::splitn`, `str::split_whitespace` and `str::strip_prefix`.
use Prim.Native.Nat.{ℕ, zero, suc}
use Prim.Native.Char.{Char, code}
use Prim.Native.String
use Prim.Native.String.{String}
use mathlib.Core.Path.{◌≡◌, refl}
use mathlib.Core.Logic.{◌≢◌, inl, inr}
use mathlib.Core.Bool.{Bool, true, false}
use mathlib.Core.List.{List, [], ◌∷◌, ◌++◌}
use mathlib.Core.Option.{Option, none, some}
use native.Mathlib.Omega.{arith}
use cpcluster.Prelude.Tests.{◌==◌, ==_iff, if◌then◌else◌, Bool-cases}
use cpcluster.Prelude.Text.{is_whitespace}

-- Puts a character before the first part.
abbrev pub extend : Char → List String → List String
extend c [] = String.◌∷◌ c String.[] ∷ []
extend c (part ∷ parts) = String.◌∷◌ c part ∷ parts

unfoldable pub split : (ℕ → Bool) → String → List String
split p String.[] = String.[] ∷ []
split p (String.◌∷◌ c s) =
    let parts = split p s in if p (code c) then String.[] ∷ parts else extend c parts

-- At most so many parts: the last one keeps its separators.
unfoldable pub splitn : ℕ → (ℕ → Bool) → String → List String
splitn zero p s = []
splitn (suc zero) p s = s ∷ []
splitn (suc (suc n)) p String.[] = String.[] ∷ []
splitn (suc (suc n)) p (String.◌∷◌ c s) =
    let parts = splitn (suc n) p s in
    let same = splitn (suc (suc n)) p s in if p (code c) then String.[] ∷ parts else extend c same

abbrev pub non_empty : List String → List String
non_empty [] = []
non_empty (String.[] ∷ parts) = non_empty parts
non_empty (String.◌∷◌ c s ∷ parts) = String.◌∷◌ c s ∷ non_empty parts

unfoldable pub split_whitespace : String → List String
unfolding split is_whitespace
split_whitespace s = non_empty (split is_whitespace s)

-- What follows the prefix.
unfoldable pub strip_prefix : String → String → Option String
strip_prefix String.[] s = some s
strip_prefix (String.◌∷◌ c t) String.[] = none
strip_prefix (String.◌∷◌ c t) (String.◌∷◌ d s) =
    let rest = strip_prefix t s in if code c == code d then rest else none

-- Whether no character of a text passes the test.
abbrev pub IsFree : (ℕ → Bool) → String → Type 0
IsFree p String.[] = Unit
IsFree p (String.◌∷◌ c s) = (p (code c) ≡ false) × IsFree p s

pub split_free : (p : ℕ → Bool) (s : String) → IsFree p s → split p s ≡ s ∷ []
unfolding split
split_free p String.[] h = refl
split_free p (String.◌∷◌ c s) h = rw (h.0, split_free p s h.1) refl

split-ne-nil : (p : ℕ → Bool) (s : String) → split p s ≢ []
unfolding split
split-ne-nil p String.[] = ground arith
split-ne-nil p (String.◌∷◌ c s) = ground arith

extend-append : (c : Char) (ps qs : List String) → ps ≢ [] → extend c (ps ++ qs) ≡ extend c ps ++ qs
extend-append c [] qs h = absurd (h refl)
extend-append c (p ∷ ps) qs h = refl

-- A text with a separator in it splits into the parts of its two sides.
pub split-append :
    (p : ℕ → Bool) (s : String) (d : Char) (t : String)
    → p (code d) ≡ true
    → split p (String.◌++◌ s (String.◌∷◌ d t)) ≡ split p s ++ split p t
unfolding split
split-append p String.[] d t h = rw (String.append.nil (String.◌∷◌ d t), split, h) refl
split-append p (String.◌∷◌ c s) d t h =
    rw (String.append.cons c s (String.◌∷◌ d t), split, split-append p s d t h)
      (elim (Bool-cases (p (code c))) [
        | inl e ↦ rw e refl
        | inr e ↦ rw e (extend-append c (split p s) (split p t) (split-ne-nil p s))
      ])

-- The first of several parts.
pub splitn-append :
    (n : ℕ) (p : ℕ → Bool) (s : String) (d : Char) (t : String)
    → IsFree p s
    → p (code d) ≡ true
    → splitn (suc (suc n)) p (String.◌++◌ s (String.◌∷◌ d t)) ≡ s ∷ splitn (suc n) p t
unfolding splitn
splitn-append n p String.[] d t f h = rw (String.append.nil (String.◌∷◌ d t), splitn, h) refl
splitn-append n p (String.◌∷◌ c s) d t f h =
    rw (String.append.cons c s (String.◌∷◌ d t), splitn, f.0, splitn-append n p s d t f.1 h) refl

pub IsFree-append :
    (p : ℕ → Bool) (s t : String) → IsFree p s → IsFree p t → IsFree p (String.◌++◌ s t)
IsFree-append p String.[] t f g = rw (String.append.nil t) g
IsFree-append p (String.◌∷◌ c s) t f g =
    rw (String.append.cons c s t) (f.0, IsFree-append p s t f.1 g)

pub strip_prefix-append : (t s : String) → strip_prefix t (String.◌++◌ t s) ≡ some s
unfolding strip_prefix
strip_prefix-append String.[] s = rw (String.append.nil s) refl
strip_prefix-append (String.◌∷◌ c t) s =
    rw (String.append.cons c t s, strip_prefix)
      (ground (arith, ==_iff (code c) (code c), strip_prefix-append t s))

split_examples :
    (split (λ c. c == 0x3b) "nodes; tasks;" ≡ "nodes" ∷ " tasks" ∷ "" ∷ [])
    × (splitn 3 (λ c. c == 0x20) "addtask compute 1 + 2" ≡ "addtask" ∷ "compute" ∷ "1 + 2" ∷ [])
    × (split_whitespace " task  7a " ≡ "task" ∷ "7a" ∷ [])
    × (strip_prefix "--log-level=" "--log-level=info" ≡ some "info")
unfolding split splitn split_whitespace strip_prefix
split_examples = (refl, refl, refl, refl)

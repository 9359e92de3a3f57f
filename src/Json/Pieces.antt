-- ===== src/Json/Pieces.antt =====
-- The pieces of arrays and objects, joined by commas, are elements and members of the grammar.
use mathlib.Core.Path.{subst}
use lrust.Base.{
  ℕ, zero, suc, ◌*◌, ◌≡◌, sym, Bool, true, false, if◌then◌else◌, List, [], ◌∷◌, ◌++◌, append_assoc,
  append-nil, replicate,
}
use lrust.Base.Text.{Bytes, codes}
use lrust.Json.Encode.{Encoding, written, failed}
use lrust.Json.Render.{new_line, indent, Pieces, pieces, gap, stopped, prepend, more, separated}
use lrust.Json.Grammar.{IsSpace, no_space, blank, line, IsElements, IsMembers}

pub new_line-IsSpace : (fmt : Bool) → IsSpace (new_line fmt)
new_line-IsSpace true = line no_space
new_line-IsSpace false = no_space

pub blanks : (n : ℕ) → IsSpace (replicate n b' ')
blanks zero = no_space
blanks (suc n) = blank (blanks n)

pub indent-IsSpace : (fmt : Bool) (n : ℕ) → IsSpace (indent fmt n)
indent-IsSpace true n = blanks (2 * n)
indent-IsSpace false n = no_space

pub append-IsSpace : {s t : Bytes} → IsSpace s → IsSpace t → IsSpace (s ++ t)
append-IsSpace no_space h = h
append-IsSpace (blank g) h = blank (append-IsSpace g h)
append-IsSpace (line g) h = line (append-IsSpace g h)

pub colon-IsSpace : (fmt : Bool) → IsSpace (if fmt then codes " " else [])
colon-IsSpace true = blank no_space
colon-IsSpace false = no_space

unfoldable pub AreElements : Pieces → Type 0
AreElements (pieces []) = Unit
AreElements (pieces (t ∷ ts)) = IsElements (separated (t ∷ ts))
AreElements ps = Unit

unfoldable pub AreMembers : Pieces → Type 0
AreMembers (pieces []) = Unit
AreMembers (pieces (t ∷ ts)) = IsMembers (separated (t ∷ ts))
AreMembers ps = Unit

pub separated-cons :
    (t u : Bytes) (ts : List Bytes) → separated (t ∷ u ∷ ts) ≡ t ++ codes "," ++ separated (u ∷ ts)
unfolding separated more
separated-cons t u ts = simp append_assoc

unfoldable pub IsElement : Encoding → Type 0
IsElement (written t) = IsElements t
IsElement (failed f) = Unit

unfoldable pub IsMember : Encoding → Type 0
IsMember (written t) = IsMembers t
IsMember (failed f) = Unit

pub prepend-AreElements :
    (e : Encoding) (ps : Pieces) → IsElement e → AreElements ps → AreElements (prepend e ps)
unfolding AreElements IsElement separated more
prepend-AreElements (written t) (pieces []) h g = subst IsElements (sym (append-nil t)) h
prepend-AreElements (written t) (pieces (u ∷ us)) h g =
    subst IsElements (sym (separated-cons t u us)) (IsElements.more h g)
prepend-AreElements (written t) gap h g = tt
prepend-AreElements (written t) (stopped f) h g = tt
prepend-AreElements (failed f) ps h g = tt

pub prepend-AreMembers :
    (e : Encoding) (ps : Pieces) → IsMember e → AreMembers ps → AreMembers (prepend e ps)
unfolding AreMembers IsMember separated more
prepend-AreMembers (written t) (pieces []) h g = subst IsMembers (sym (append-nil t)) h
prepend-AreMembers (written t) (pieces (u ∷ us)) h g =
    subst IsMembers (sym (separated-cons t u us)) (IsMembers.next h g)
prepend-AreMembers (written t) gap h g = tt
prepend-AreMembers (written t) (stopped f) h g = tt
prepend-AreMembers (failed f) ps h g = tt

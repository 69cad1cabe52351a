-- ===== src/FilePath.antt =====
-- Go's path/filepath as the program calls it: Join and Ext, on absolute paths. A path is the list
-- of its components, the last one first, and is always clean.
use zknode_autonomi_alpha.Prelude.{
  ℕ, ◌≡◌, ◌≢◌, refl, List, [], ◌∷◌, ◌++◌, foldl, Bytes, codes, ◌==◌, nat_Eq, list_Eq, list_eq,
  if◌then◌else◌, arith, All, append_assoc, append-nil,
}

abbrev pub DirPath : Type 0
DirPath = List Bytes

abbrev parent : DirPath → DirPath
parent [] = []
parent (c ∷ p) = p

-- One component: an empty one and `.` are dropped, and `..` goes to the parent.
step_into : DirPath → Bytes → DirPath
step_into p c =
    if c == [] then p else if c == codes "." then p else if c == codes ".." then parent p else c ∷ p

-- The components of a text, in order, behind the part that is being read.
cut : Bytes → Bytes → List Bytes
cut [] part = part ∷ []
cut (c ∷ s) part =
    let next = part ∷ cut s [] in
    let more = cut s (part ++ c ∷ []) in if c == b'/' then next else more

-- filepath.Join(p, name).
unfoldable pub join : DirPath → Bytes → DirPath
unfolding step_into cut
join p name = foldl step_into p (cut name [])

-- What stands from the last dot on, in the last component.
ext_from : Bytes → Bytes → Bytes
ext_from [] found = found
ext_from (c ∷ s) found = ext_from s (if c == b'.' then c ∷ s else if c == b'/' then [] else found)

-- filepath.Ext(name).
unfoldable pub ext : Bytes → Bytes
unfolding ext_from
ext name = ext_from name []

abbrev pub IsPlain : Bytes → Type 0
IsPlain = All (λ c. c ≢ b'/')

cut-plain : (s part : Bytes) → IsPlain s → cut s part ≡ (part ++ s) ∷ []
unfolding cut
cut-plain [] part h = rw append-nil
cut-plain (c ∷ s) part h =
    ground (arith, cut-plain s (part ++ c ∷ []) h.1, append_assoc part (c ∷ []) s)

-- A component with no separator that does not begin with a dot is put on the path.
pub join-plain :
    (p : DirPath) (c : ℕ) (s : Bytes) → c ≢ b'.' → IsPlain (c ∷ s) → join p (c ∷ s) ≡ (c ∷ s) ∷ p
unfolding join step_into list_eq
join-plain p c s h plain = rw (cut-plain (c ∷ s) [] plain) (ground arith)

ext_from-lacks :
    (s rest found : Bytes)
    → All (λ c. c ≢ b'.') s
    → IsPlain s
    → ext_from (s ++ rest) found ≡ ext_from rest found
unfolding ext_from
ext_from-lacks [] rest found h plain = refl
ext_from-lacks (c ∷ s) rest found h plain = ground (arith, ext_from-lacks s rest found h.1 plain.1)

-- The extension of a name with one dot.
pub ext-append :
    (s t : Bytes)
    → All (λ c. c ≢ b'.') s
    → IsPlain s
    → All (λ c. c ≢ b'.') t
    → IsPlain t
    → ext (s ++ b'.' ∷ t) ≡ b'.' ∷ t
unfolding ext ext_from
ext-append s t hs ps ht pt =
    rw (ext_from-lacks s (b'.' ∷ t) [] hs ps)
      (rw (← append-nil t) (rw (ext_from-lacks t [] (b'.' ∷ t ++ []) ht pt) refl))

traversal :
    join (codes "store" ∷ []) (codes "group_x/../user_1") ≡ codes "user_1" ∷ codes "store" ∷ []
unfolding join list_eq
traversal = refl

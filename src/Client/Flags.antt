-- ===== src/Client/Flags.antt =====
-- zkchat/main.go: how the command line is read, in parseSendFlags, parseRecipient and the loop over members.
use zknode_autonomi_alpha.Prelude.{
  ◌≡◌, ◌∙◌, sym, ap, refl, Bool, true, false, Option, none, some, List, [], ◌∷◌, ◌++◌, append_assoc,
  append-nil, Bytes, Result, ok, err, codes, length, take, All, arith, ◌||◌, ◌==◌, ==_iff, nat_Eq,
  list_Eq, list_eq, if◌then◌else◌, Bool-cases, ok-injective, map, inl, inr,
}
use zknode_autonomi_alpha.Hex
use zknode_autonomi_alpha.Client.{Crypto}
use zknode_autonomi_alpha.Client.Talk.{
  SendFlags, parse_flags, parse_send_flags, via_flag, e2e_flag, parse_recipient, decoded_recipient,
}
use zknode_autonomi_alpha.Client.Groups.{parse_members, member_with}

abbrev pub IsPositional : Bytes → Type 0
IsPositional a = ((a == via_flag) ≡ false) × ((a == e2e_flag) ≡ false)

parse_flags-one :
    (a : Bytes) (args : List Bytes) (f : SendFlags)
    → IsPositional a
    → parse_flags (a ∷ args) f ≡ parse_flags args (record f { rest = f.rest ++ a ∷ [] })
unfolding parse_flags
parse_flags-one a [] f h = rw (h.1, parse_flags) refl
parse_flags-one a (b ∷ args) f h = rw (h.0, h.1, parse_flags) refl

pub parse_flags-append :
    (front back : List Bytes) (f : SendFlags)
    → All IsPositional front
    → parse_flags (front ++ back) f ≡ parse_flags back (record f { rest = f.rest ++ front })
parse_flags-append [] back f h = rw append-nil refl
parse_flags-append (a ∷ front) back f h =
    parse_flags-one a (front ++ back) f h.0
    ∙ (parse_flags-append front back (record f { rest = f.rest ++ a ∷ [] }) h.1
        ∙ rw append_assoc refl)

pub parse_flags-e2e :
    (args : List Bytes) (f : SendFlags)
    → parse_flags (e2e_flag ∷ args) f ≡ parse_flags args (record f { e2e = true })
unfolding parse_flags list_eq
parse_flags-e2e [] f = refl
parse_flags-e2e (b ∷ args) f = refl

pub parse_flags-positional :
    (back : List Bytes) (f : SendFlags)
    → All IsPositional back
    → parse_flags back f ≡ record f { rest = f.rest ++ back }
unfolding parse_flags
parse_flags-positional back f h =
    ap (λ args. parse_flags args f) (sym (append-nil back)) ∙ parse_flags-append back [] f h

parse_flags-via :
    (net : Bytes) (args : List Bytes) (f : SendFlags)
    → parse_flags (via_flag ∷ net ∷ args) f ≡ parse_flags args (record f { via = net })
unfolding parse_flags list_eq
parse_flags-via net args f = refl

-- What a command line is made of: an argument that is no flag, --via with its value, and --e2e.
pub data Item : Type 0 where
  positional : Bytes → Item
  via : Bytes → Item
  e2e : Item

abbrev pub render : List Item → List Bytes
render [] = []
render (positional a ∷ items) = a ∷ render items
render (via net ∷ items) = via_flag ∷ net ∷ render items
render (e2e ∷ items) = e2e_flag ∷ render items

abbrev pub positionals : List Item → List Bytes
positionals [] = []
positionals (positional a ∷ items) = a ∷ positionals items
positionals (via net ∷ items) = positionals items
positionals (e2e ∷ items) = positionals items

-- The value of the last --via, and without one the value given.
abbrev pub last_via : List Item → Bytes → Bytes
last_via [] net = net
last_via (positional a ∷ items) net = last_via items net
last_via (via other ∷ items) net = last_via items other
last_via (e2e ∷ items) net = last_via items net

abbrev pub has_e2e : List Item → Bool
has_e2e [] = false
has_e2e (positional a ∷ items) = has_e2e items
has_e2e (via net ∷ items) = has_e2e items
has_e2e (e2e ∷ items) = true

-- The end of a command line: nothing, or a --via that has no value.
abbrev pub dangling : Bool → List Bytes
dangling false = []
dangling true = via_flag ∷ []

parse_flags-dangling :
    (cut : Bool) (f : SendFlags)
    → parse_flags (dangling cut) f ≡ record f { rest = f.rest ++ dangling cut }
unfolding parse_flags list_eq
parse_flags-dangling false f = rw append-nil refl
parse_flags-dangling true f = refl

parse_flags-render :
    (items : List Item) (cut : Bool) (f : SendFlags)
    → All IsPositional (positionals items)
    → parse_flags (render items ++ dangling cut) f ≡ record {
      rest = f.rest ++ (positionals items ++ dangling cut);
      via = last_via items f.via;
      e2e = f.e2e || has_e2e items;
    }
parse_flags-render [] cut f h = parse_flags-dangling cut f ∙ ground (arith)
parse_flags-render (positional a ∷ items) cut f h =
    parse_flags-one a (render items ++ dangling cut) f h.0
    ∙ (parse_flags-render items cut (record f { rest = f.rest ++ a ∷ [] }) h.1
        ∙ rw append_assoc refl)
parse_flags-render (via net ∷ items) cut f h =
    parse_flags-via net (render items ++ dangling cut) f
    ∙ parse_flags-render items cut (record f { via = net }) h
parse_flags-render (e2e ∷ items) cut f h =
    parse_flags-e2e (render items ++ dangling cut) f
    ∙ (parse_flags-render items cut (record f { e2e = true }) h ∙ ground (arith))

-- Of any command line, made of arguments that are no flag, of --via with its value and of --e2e, in
-- whatever order and number, the arguments come back in their order, the network is the value of the
-- last --via or empty without one, and end-to-end encryption is asked for exactly if --e2e stands
-- somewhere. A --via without a value at the end counts as an argument.
pub parse_send_flags_lem :
    (items : List Item) (cut : Bool)
    → All IsPositional (positionals items)
    → parse_send_flags (render items ++ dangling cut) ≡ record {
      rest = positionals items ++ dangling cut;
      via = last_via items [];
      e2e = has_e2e items;
    }
unfolding parse_send_flags
parse_send_flags_lem items cut h = parse_flags-render items cut _ h

length-chosen :
    (own : Bool) (self r : Bytes) (other : Result Bytes)
    → length self ≡ 16
    → (other ≡ ok r → length r ≡ 16)
    → (if own then ok self else other) ≡ ok r
    → length r ≡ 16
length-chosen true self r other h k e = ground (arith, ok-injective e, h)
length-chosen false self r other h k e = k e

length-decoded_recipient :
    (k : Crypto) (s r : Bytes) (o : Option Bytes)
    → length (take 16 (k.blake2b s)) ≡ 16
    → decoded_recipient k s o ≡ ok r
    → length r ≡ 16
unfolding decoded_recipient
length-decoded_recipient k s r none h e = ground (arith, ok-injective e, h)
length-decoded_recipient k s r (some b) h e = ground (arith, e)

-- A recipient that is accepted has 16 bytes, whether it is `self`, a hex text, or any other text,
-- which is hashed; the user's own ID and the front of the hash are taken to have 16 bytes.
pub length-parse_recipient :
    (k : Crypto) (s self r : Bytes)
    → length self ≡ 16
    → length (take 16 (k.blake2b s)) ≡ 16
    → parse_recipient k s self ≡ ok r
    → length r ≡ 16
unfolding parse_recipient
length-parse_recipient k s self r hs hb e =
    length-chosen (s == codes "self") self r (decoded_recipient k s (Hex.decode s)) hs
      (length-decoded_recipient k s r (Hex.decode s) hb) e

member_with-ok :
    (a : Bytes) (o : Option Bytes) (rs : Result (List Bytes)) (ms : List Bytes)
    → member_with a o rs ≡ ok ms
    → (b : Bytes) × (rest : List Bytes) × (o ≡ some b)
      × (rs ≡ ok rest)
      × (length b ≡ 16)
      × (ms ≡ b ∷ rest)
unfolding member_with
member_with-ok a none rs ms e = absurd (cc)
member_with-ok a (some b) (err x) ms e = absurd (ground (arith, e))
member_with-ok a (some b) (ok rest) ms e = elim (Bool-cases (length b == 16)) [
  | inl h ↦ (b, rest, refl, refl, (==_iff (length b) 16).0 h, ground (arith, e, h))
  | inr h ↦ absurd (ground (arith, e, h))
]

-- The members of a command line are all read or none: there is one for each argument, in order, and
-- it is the 16 bytes that the argument spells in hex.
parse_members_lem :
    (args ms : List Bytes)
    → parse_members args ≡ ok ms
    → (map Hex.decode args ≡ map some ms) × All (λ b. length b ≡ 16) ms
unfolding parse_members
parse_members_lem [] ms e = rw (← ok-injective e) (refl, tt)
parse_members_lem (a ∷ args) ms e =
    let (b, rest, d, r, l, q) = member_with-ok a (Hex.decode a) (parse_members args) ms e in
    let (same, sized) = parse_members_lem args rest r in
    rw (q, d) (ap (λ xs. some b ∷ xs) same, (l, sized))

-- ===== src/Chat/Letters.antt =====
-- chatd/main.go: the messages that wait in a directory, whatever host looks at them, and how they change
-- when a file is written or removed.
use zknode_autonomi_alpha.Prelude.{
  ◌≡◌, refl, ap, true, false, Option, none, some, List, [], ◌∷◌, ◌++◌, Bytes, codes, ◌==◌, ==_iff,
  ==_refl, nat_Eq, list_Eq, arith, inl, inr, Option-cases, Bool-cases, if◌then◌else◌, contains,
  place, before, keys,
}
use zknode_autonomi_alpha.FilePath.{DirPath, ext}
use zknode_autonomi_alpha.Files.{Files, Entries, Host, Syscall, file, read_file}
use zknode_autonomi_alpha.Chat.{Wire, ChatMessage}
use zknode_autonomi_alpha.Chat.Direct.{readable}
use zknode_autonomi_alpha.Chat.Mailbox.{inbox, Willing}

module _ (w : Wire) (d : DirPath) where
  -- The message in a file.
  unfoldable pub peek : Bytes → Files → Option ChatMessage
  peek n fs =
      if ext n == codes ".msg"
      then elim (file fs d n) [ none ↦ none | some b ↦ w.decode_message b ]
      else none

  -- The messages among some files, in the order of the files.
  unfoldable pub letters : List Bytes → Files → List ChatMessage
  letters [] fs = []
  letters (n ∷ ns) fs = elim (peek n fs) [ none ↦ letters ns fs | some msg ↦ msg ∷ letters ns fs ]

  pub readable-peek :
      (h : Host) (n : Bytes) (fs : Files) → Willing h → readable w h d n fs ≡ peek n fs
  unfolding readable peek read_file
  readable-peek h n fs r = elim (Option-cases (file fs d n)) [
    | inl e ↦ ground (arith, e, r Syscall.read (n ∷ d))
    | inr (b, e) ↦ ground (arith, e, r Syscall.read (n ∷ d))
  ]

  pub inbox-letters :
      (h : Host) (ns : List Bytes) (fs : Files) → Willing h → inbox w h d ns fs ≡ letters ns fs
  unfolding inbox letters
  inbox-letters h [] fs r = refl
  inbox-letters h (n ∷ ns) fs r = elim (Option-cases (peek n fs)) [
    | inl e ↦ rw (readable-peek h n fs r, e, letters, inbox) (inbox-letters h ns fs r)
    | inr (msg, e) ↦
        rw (readable-peek h n fs r, e, letters, inbox) (ap (◌∷◌ msg) (inbox-letters h ns fs r))
  ]

  pub peek-cong : (n : Bytes) (fs fs' : Files) → file fs d n ≡ file fs' d n → peek n fs ≡ peek n fs'
  unfolding peek
  peek-cong n fs fs' e = rw e refl

  pub letters-cong :
      (ns : List Bytes) (fs fs' : Files)
      → ((n : Bytes) → contains ns n ≡ true → file fs d n ≡ file fs' d n)
      → letters ns fs ≡ letters ns fs'
  unfolding letters contains
  letters-cong [] fs fs' k = refl
  letters-cong (n ∷ ns) fs fs' k =
      let rest = letters-cong ns fs fs' (λ m c. k m (ground (arith, c))) in
      let here = peek-cong n fs fs' (k n (ground (arith, ==_refl n))) in
      elim (Option-cases (peek n fs')) [
        | inl e ↦ rw (here, e, letters) rest
        | inr (msg, e) ↦ rw (here, e, letters) (ap (◌∷◌ msg) rest)
      ]

  pub letters-nil :
      (ns : List Bytes) (fs : Files) → ((n : Bytes) → peek n fs ≡ none) → letters ns fs ≡ []
  unfolding letters
  letters-nil [] fs k = refl
  letters-nil (n ∷ ns) fs k = rw (k n, letters) (letters-nil ns fs k)

-- One list is the other with one message more, at some place.
abbrev pub Inserted : ChatMessage → List ChatMessage → List ChatMessage → Type 0
Inserted msg xs ys = (pre post : List ChatMessage) × (xs ≡ pre ++ post) × (ys ≡ pre ++ msg ∷ post)

module _ (w : Wire) (d : DirPath) where
  -- A new file with a message adds just that message, at the place of its name.
  pub letters-place :
      (n b : Bytes) (es : Entries) (fs fs' : Files) (msg : ChatMessage)
      → contains (keys es) n ≡ false
      → ((m : Bytes) → (n == m) ≡ false → file fs' d m ≡ file fs d m)
      → peek w d n fs' ≡ some msg
      → Inserted msg (letters w d (keys es) fs) (letters w d (keys (place before n b es)) fs')
  unfolding letters place contains
  letters-place n b [] fs fs' msg new k e = ([], [], refl, rw (e, letters) refl)
  letters-place n b ((m, c) ∷ es) fs fs' msg new k e =
      let other : (n == m) ≡ false = ground (arith, new, ==_iff n m, ==_iff m n) in
      let same : peek w d m fs' ≡ peek w d m fs = peek-cong w d m fs' fs (k m other) in
      elim (Bool-cases (before n m)) [
        | inl first ↦ (
          [],
          letters w d (m ∷ keys es) fs,
          refl,
          rw (first, e, letters)
              (ap (◌∷◌ msg) (
                letters-cong w d (m ∷ keys es) fs' fs
                  (λ x c. k x (ground (arith, new, c, ==_iff n x))))),
        )
        | inr later ↦
            let (pre, post, p, q) = letters-place n b es fs fs' msg (ground (arith, new)) k e in
            elim (Option-cases (peek w d m fs)) [
              | inl none_here ↦
                  (pre, post, rw (none_here, letters) p, rw (later, same, none_here, letters) q)
              | inr (x, here) ↦ (
                x ∷ pre,
                post,
                rw (here, letters) (ap (◌∷◌ x) p),
                rw (later, same, here, letters) (ap (◌∷◌ x) q),
              )
            ]
      ]

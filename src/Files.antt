-- ===== src/Files.antt =====
-- The file system below the daemon: package os as katzenpost/cmd/chatd/main.go calls it. A directory holds
-- its files in the order of their names, which is the order that os.ReadDir gives. What the system
-- refuses is up to the host; a refused call changes nothing.
pub mod Laws
pub mod Names
use zknode_autonomi_alpha.Prelude.{
  ℕ, Bool, true, false, ◌||◌, Option, none, some, List, [], ◌∷◌, Bytes, Result, before, ◌==◌,
  list_Eq, nat_Eq, lookup, insert, erase, keys, if◌then◌else◌,
}
use zknode_autonomi_alpha.FilePath.{DirPath}

abbrev pub Entries : Type 0
Entries = List (Bytes × Bytes)

abbrev pub Files : Type 0
Files = List (DirPath × Entries)

pub data Syscall : Type 0 where
  mkdirs write read list unlink : Syscall

pub data IoError : Type 0 where
  not_exist : IoError
  refused : Bytes → IoError

pub data IoResult {ℓ} (A : Type ℓ) : Type ℓ where
  done : A → IoResult A
  fault : IoError → IoResult A

-- What the machine answers during one request: the calls that it refuses with the reason, the text
-- of an error, the clock in milliseconds, sixteen random bytes, what the `ant` tool prints for a
-- chunk, and the reply of an HTTP server to a body posted to a URL (the call, then the reading of it).
pub record Host : Type 0 where
  pub refuses : Syscall → DirPath → Option Bytes
  pub describe : IoError → Bytes
  pub now_ms : ℕ
  pub random : Bytes
  pub ant : Bytes → Result Bytes
  pub post : Bytes → Bytes → Result (Result Bytes)

pub no_order : DirPath → DirPath → Bool
no_order _ _ = false

or_refused {ℓ} : {A : Type ℓ} → Option Bytes → IoResult A → IoResult A
or_refused (some reason) r = fault (refused reason)
or_refused none r = r

-- The content of a file.
unfoldable pub file : Files → DirPath → Bytes → Option Bytes
file fs d n = elim (lookup d fs) [ none ↦ none | some es ↦ lookup n es ]

-- The names in a directory.
unfoldable pub names : Files → DirPath → List Bytes
names fs d = elim (lookup d fs) [ none ↦ [] | some es ↦ keys es ]

unfoldable pub has_dir : Files → DirPath → Bool
has_dir fs d = elim (lookup d fs) [ none ↦ false | some es ↦ true ]

unfoldable pub add_dir : DirPath → Files → Files
unfolding no_order
add_dir d fs = elim (lookup d fs) [ none ↦ insert no_order d [] fs | some es ↦ fs ]

unfoldable pub add_dirs : DirPath → Files → Files
unfolding add_dir
add_dirs [] fs = add_dir [] fs
add_dirs (c ∷ p) fs = add_dir (c ∷ p) (add_dirs p fs)

unfoldable pub put_file : DirPath → Bytes → Bytes → Files → Files
unfolding no_order
put_file d n b fs = elim (lookup d fs) [
  | none ↦ fs
  | some es ↦ insert no_order d (insert before n b es) fs
]

unfoldable pub drop_file : DirPath → Bytes → Files → Files
unfolding no_order
drop_file d n fs = elim (lookup d fs) [ none ↦ fs | some es ↦ insert no_order d (erase n es) fs ]

-- Whether a path is a directory or stands below it.
unfoldable pub is_under : DirPath → DirPath → Bool
is_under d [] = [] == d
is_under d (c ∷ p) = (c ∷ p) == d || is_under d p

unfoldable pub drop_tree : DirPath → Files → Files
drop_tree d [] = []
drop_tree d ((p, es) ∷ fs) =
    let rest = drop_tree d fs in if is_under d p then rest else (p, es) ∷ rest

module _ (h : Host) where
  -- os.MkdirAll(d, 0700)
  unfoldable pub mkdir_all : DirPath → Files → IoResult Files
  unfolding or_refused
  mkdir_all d fs = or_refused (h.refuses mkdirs d) (done (add_dirs d fs))

  -- os.WriteFile(Join(d, n), b, 0600)
  unfoldable pub write_file : DirPath → Bytes → Bytes → Files → IoResult Files
  unfolding or_refused
  write_file d n b fs =
      or_refused (h.refuses write (n ∷ d))
        (if has_dir fs d then done (put_file d n b fs) else fault not_exist)

  -- os.ReadFile(Join(d, n))
  unfoldable pub read_file : DirPath → Bytes → Files → IoResult Bytes
  unfolding or_refused
  read_file d n fs =
      or_refused (h.refuses read (n ∷ d))
        (elim (file fs d n) [ none ↦ fault not_exist | some b ↦ done b ])

  -- os.ReadDir(d)
  unfoldable pub read_dir : DirPath → Files → IoResult (List Bytes)
  unfolding or_refused
  read_dir d fs =
      or_refused (h.refuses list d) (if has_dir fs d then done (names fs d) else fault not_exist)

  -- os.Remove(Join(d, n)), whose error the program ignores
  unfoldable pub remove : DirPath → Bytes → Files → Files
  remove d n fs = elim (h.refuses unlink (n ∷ d)) [ some _ ↦ fs | none ↦ drop_file d n fs ]

  -- os.RemoveAll(d), whose error the program ignores
  unfoldable pub remove_all : DirPath → Files → Files
  remove_all d fs = elim (h.refuses unlink d) [ some _ ↦ fs | none ↦ drop_tree d fs ]

-- ===== src/Copier/Args.antt =====
-- `main` of module3/task01/main.c: the option is taken out of the arguments, and the files are copied one
-- behind the other. The arguments stand without the program's name.
use eltex_practice.Base.{
  ◌≡◌, refl, ap, Bool, true, false, ◌&&◌, List, [], ◌∷◌, ◌++◌, Option, none, some, Bytes, codes,
  str_eq, if◌then◌else◌, append_assoc, append-nil, str_eq_refl, ◌∙◌, sym,
}

-- The loop over `argv`: `kept` was passed already. None is the missing argument of the option.
unfoldable pub parse_args :
    List Bytes → Option Bytes → List Bytes → Option (Option Bytes × List Bytes)
parse_args [] fifo_name kept = some (fifo_name, kept)
parse_args (a ∷ []) fifo_name kept =
    if str_eq a (codes "-p") then none else some (fifo_name, kept ++ a ∷ [])
parse_args (a ∷ b ∷ args) fifo_name kept =
    let shifted = parse_args args (some b) kept in
    let next = parse_args (b ∷ args) fifo_name (kept ++ a ∷ []) in
    if str_eq a (codes "-p") then shifted else next

-- The files in their order. `status` is `overall_status`: whether all have succeeded so far.
unfoldable pub copy_all : (Bytes → Bool) → List Bytes → Bool → Bool
copy_all copies [] status = status
copy_all copies (f ∷ files) status = copy_all copies files (if copies f then status else false)

-- What `main` returns, true for success, and the files that it copied. `copies` is `copy_file`.
unfoldable pub copier_main : (Option Bytes → Bytes → Bool) → List Bytes → Bool × List Bytes
copier_main copies args = elim (parse_args args none []) [
  | none ↦ (false, [])
  | some (fifo_name, []) ↦ (false, [])
  | some (fifo_name, f ∷ files) ↦ (copy_all (copies fifo_name) (f ∷ files) true, f ∷ files)
]

-- What holds for every file.
abbrev pub all : (Bytes → Bool) → List Bytes → Bool
all copies [] = true
all copies (f ∷ files) = copies f && all copies files

-- What a command line is meant to say: files and options in any order.
pub data Item : Type 0 where
  file : Bytes → Item
  option : Bytes → Item

abbrev pub written : List Item → List Bytes
written [] = []
written (file f ∷ items) = f ∷ written items
written (option n ∷ items) = codes "-p" ∷ n ∷ written items

-- The files, and the name of the last option.
abbrev pub files_of : List Item → List Bytes
files_of [] = []
files_of (file f ∷ items) = f ∷ files_of items
files_of (option n ∷ items) = files_of items

abbrev pub name_of : Option Bytes → List Item → Option Bytes
name_of fifo_name [] = fifo_name
name_of fifo_name (file f ∷ items) = name_of fifo_name items
name_of fifo_name (option n ∷ items) = name_of (some n) items

-- No file is called like the option.
abbrev pub NoOption : List Item → Type 0
NoOption [] = Unit {0}
NoOption (file f ∷ items) = (str_eq f (codes "-p") ≡ false) × NoOption items
NoOption (option n ∷ items) = NoOption items

parse_args-file :
    (f : Bytes) (args : List Bytes) (fifo_name : Option Bytes) (kept : List Bytes)
    → str_eq f (codes "-p") ≡ false
    → parse_args (f ∷ args) fifo_name kept ≡ parse_args args fifo_name (kept ++ f ∷ [])
unfolding parse_args
parse_args-file f [] fifo_name kept h = rw (h) refl
parse_args-file f (b ∷ args) fifo_name kept h = rw (h) refl

parse_args-written :
    (items : List Item) (fifo_name : Option Bytes) (kept : List Bytes)
    → NoOption items
    → parse_args (written items) fifo_name kept
      ≡ some (name_of fifo_name items, kept ++ files_of items)
unfolding parse_args
parse_args-written [] fifo_name kept h = ap (λ t. some (fifo_name, t)) (sym (append-nil kept))
parse_args-written (file f ∷ items) fifo_name kept h =
    parse_args-file f (written items) fifo_name kept h.0
    ∙ parse_args-written items fifo_name (kept ++ f ∷ []) h.1
    ∙ ap (λ t. some (name_of fifo_name items, t)) (append_assoc kept (f ∷ []) (files_of items))
parse_args-written (option n ∷ items) fifo_name kept h =
    rw (str_eq_refl (codes "-p")) (parse_args-written items (some n) kept h)

parse_args-missing :
    (items : List Item) (fifo_name : Option Bytes) (kept : List Bytes)
    → NoOption items
    → parse_args (written items ++ codes "-p" ∷ []) fifo_name kept ≡ none
unfolding parse_args
parse_args-missing [] fifo_name kept h = rw (str_eq_refl (codes "-p")) refl
parse_args-missing (file f ∷ items) fifo_name kept h =
    parse_args-file f (written items ++ codes "-p" ∷ []) fifo_name kept h.0
    ∙ parse_args-missing items fifo_name (kept ++ f ∷ []) h.1
parse_args-missing (option n ∷ items) fifo_name kept h =
    rw (str_eq_refl (codes "-p")) (parse_args-missing items (some n) kept h)

-- What the files of a command line come to.
abbrev pub run : (Bytes → Bool) → List Bytes → Bool × List Bytes
run copies [] = (false, [])
run copies (f ∷ files) = (all copies (f ∷ files), f ∷ files)

copy_all-all :
    (copies : Bytes → Bool) (files : List Bytes) (status : Bool)
    → copy_all copies files status ≡ (status && all copies files)
unfolding copy_all
copy_all-all copies [] true = refl
copy_all-all copies [] false = refl
copy_all-all copies (f ∷ files) status =
    copy_all-all copies files (if copies f then status else false)
    ∙ elim (copies f)
        as (λ b.
          ((if b then status else false) && all copies files)
          ≡ (status && (b && all copies files))) [
            | true ↦ refl
            | false ↦ elim status as (λ t. false ≡ (t && false)) [ true ↦ refl | false ↦ refl ]
          ]

copier_main-run :
    (copies : Option Bytes → Bytes → Bool) (args : List Bytes) (fifo_name : Option Bytes)
    (files : List Bytes)
    → parse_args args none [] ≡ some (fifo_name, files)
    → copier_main copies args ≡ run (copies fifo_name) files
unfolding copier_main
copier_main-run copies args fifo_name [] e = rw (e, copier_main) refl
copier_main-run copies args fifo_name (f ∷ files) e =
    rw (e, copier_main)
      (ap (λ b. (b, f ∷ files)) (copy_all-all (copies fifo_name) (f ∷ files) true))

-- On a command line of files and options in any order, no file called `-p`, the program copies the files in
-- their order, each through the named pipe of the last option or else through pipes, and succeeds if there
-- is a file and every copy succeeds; a last `-p` with no name behind it makes it fail before it copies.
pub copier_main-written :
    (copies : Option Bytes → Bytes → Bool) (items : List Item)
    → NoOption items
    → (copier_main copies (written items) ≡ run (copies (name_of none items)) (files_of items))
      × (copier_main copies (written items ++ codes "-p" ∷ []) ≡ (false, []))
unfolding copier_main
copier_main-written copies items h = (
  copier_main-run copies (written items) (name_of none items) (files_of items)
      (parse_args-written items none [] h),
  rw (parse_args-missing items none [] h, copier_main) refl,
)

-- ===== src/Vfs.antt =====
-- kernel/vfs.c: the tree of nodes in memory. A pointer to a node is its place in the list of all
-- nodes, none for the null pointer; a node that is freed keeps its place and is linked nowhere. A
-- call that allocates takes whether there is memory.
use vyro_os.Base.{
  ℕ, zero, suc, ◌+◌, ◌%◌, ◌^◌, Bool, true, false, not, Option, none, some, List, [], ◌∷◌, ◌++◌,
  length, get_elem?, set, take, replicate, ◌-◌, ◌==◌, if◌then◌else◌,
}
use vyro_os.Base.Text.{c_str, copy_str, str_eq}
pub mod Chain
pub mod Dir
pub mod Unlink
pub mod Tests

abbrev pub vfs_name_max : ℕ
vfs_name_max = 64

abbrev pub vfs_file : ℕ
vfs_file = 0

abbrev pub vfs_directory : ℕ
vfs_directory = 1

abbrev pub vfs_symlink_type : ℕ
vfs_symlink_type = 2

-- `vfs_node_t`; `name` is the array, `content` and `symlink_target` are the strings
pub record Node : Type 0 where
  pub name : List ℕ
  pub kind : ℕ
  pub parent : ℕ
  pub first_child : Option ℕ
  pub next_sibling : Option ℕ
  pub content : Option (List ℕ)
  pub size : ℕ
  pub mode : ℕ
  pub uid : ℕ
  pub symlink_target : Option (List ℕ)

-- The loop of `vfs_find`, for at most `fuel` siblings.
pub find_from : ℕ → List Node → Option ℕ → List ℕ → Option ℕ
find_from zero ns cur name = none
find_from (suc fuel) ns none name = none
find_from (suc fuel) ns (some i) name = elim (get_elem? ns i) [
  | none ↦ none
  | some n ↦
      let rest = find_from fuel ns n.next_sibling name in
      if str_eq n.name name then some i else rest
]

-- `"."` and `".."`
abbrev pub dot : List ℕ
dot = 46 ∷ []

abbrev pub dot_dot : List ℕ
dot_dot = 46 ∷ 46 ∷ []

unfoldable pub find_in : List Node → ℕ → Node → List ℕ → Option ℕ
unfolding find_from
find_in ns d dir name =
    if not (dir.kind == vfs_directory)
    then none
    else (if str_eq name dot
        then some d
        else (if str_eq name dot_dot
            then some dir.parent
            else find_from (length ns) ns dir.first_child name))

unfoldable pub vfs_find : List Node → Option ℕ → List ℕ → Option ℕ
unfolding find_in
vfs_find ns none name = none
vfs_find ns (some d) name = elim (get_elem? ns d) [ none ↦ none | some dir ↦ find_in ns d dir name ]

-- `while (cur->next_sibling) cur = cur->next_sibling; cur->next_sibling = node;`
pub link_last : ℕ → List Node → ℕ → ℕ → List Node
link_last zero ns cur k = ns
link_last (suc fuel) ns cur k = elim (get_elem? ns cur) [
  | none ↦ ns
  | some n ↦ elim n.next_sibling [
    | none ↦ set ns cur (record n { next_sibling = some k })
    | some j ↦ link_last fuel ns j k
  ]
]

-- The node that `vfs_create` fills.
pub fresh_node : ℕ → List ℕ → ℕ → Node
fresh_node parent name kind = record {
  name = copy_str (replicate vfs_name_max 0) name vfs_name_max;
  kind = kind;
  parent = parent;
  first_child = none;
  next_sibling = none;
  content = none;
  size = 0;
  mode = if kind == vfs_directory then 493 else 420;
  uid = 0;
  symlink_target = none;
}

pub link_child : List Node → ℕ → Node → ℕ → List Node
unfolding link_last
link_child ns d dir k = elim dir.first_child [
  | none ↦ set ns d (record dir { first_child = some k })
  | some c ↦ link_last (length ns) ns c k
]

pub create_in : List Node → ℕ → Node → List ℕ → ℕ → Bool → List Node × Option ℕ
unfolding find_in link_child fresh_node
create_in ns d dir name kind mem =
    let k = length ns in
    if not (dir.kind == vfs_directory) then (ns, none) else elim (find_in ns d dir name) [
      | some i ↦ (ns, none)
      | none ↦
          if not mem
          then (ns, none)
          else (link_child (ns ++ (fresh_node d name kind ∷ [])) d dir k, some k)
    ]

unfoldable pub vfs_create : List Node → Option ℕ → List ℕ → ℕ → Bool → List Node × Option ℕ
unfolding create_in
vfs_create ns none name kind mem = (ns, none)
vfs_create ns (some d) name kind mem = elim (get_elem? ns d) [
  | none ↦ (ns, none)
  | some dir ↦ create_in ns d dir name kind mem
]

-- The node behind `prev`, or the first child of `d`, becomes `next`.
pub unlink : List Node → ℕ → Option ℕ → Option ℕ → List Node
unlink ns d none next = elim (get_elem? ns d) [
  | none ↦ ns
  | some dir ↦ set ns d (record dir { first_child = next })
]
unlink ns d (some p) next = elim (get_elem? ns p) [
  | none ↦ ns
  | some n ↦ set ns p (record n { next_sibling = next })
]

-- The loop of `vfs_remove`: the nodes it leaves, none where no name is the same.
pub remove_from : ℕ → List Node → ℕ → Option ℕ → Option ℕ → List ℕ → Option (List Node)
unfolding unlink
remove_from zero ns d prev cur name = none
remove_from (suc fuel) ns d prev none name = none
remove_from (suc fuel) ns d prev (some i) name = elim (get_elem? ns i) [
  | none ↦ none
  | some n ↦
      let rest = remove_from fuel ns d (some i) n.next_sibling name in
      if str_eq n.name name then some (unlink ns d prev n.next_sibling) else rest
]

abbrev pub removed : List Node → Option (List Node) → List Node × ℕ
removed ns none = (ns, 0)
removed ns (some ns') = (ns', 1)

unfoldable pub vfs_remove : List Node → Option ℕ → List ℕ → List Node × ℕ
unfolding remove_from
vfs_remove ns none name = (ns, 0)
vfs_remove ns (some d) name = elim (get_elem? ns d) [
  | none ↦ (ns, 0)
  | some dir ↦
      if not (dir.kind == vfs_directory)
      then (ns, 0)
      else removed ns (remove_from (length ns) ns d none dir.first_child name)
]

pub vfs_write : List Node → Option ℕ → List ℕ → Bool → List Node × ℕ
vfs_write ns none str mem = (ns, 0)
vfs_write ns (some f) str mem = elim (get_elem? ns f) [
  | none ↦ (ns, 0)
  | some n ↦
      if not (n.kind == vfs_file)
      then (ns, 0)
      else (if not mem then (set ns f (record n { content = none; size = 0 }), 0) else (
        set ns f (record n { content = some (c_str str); size = length (c_str str) % 2 ^ 32 }),
        length (c_str str),
      ))
]

-- The text of a file, none for a null result.
pub vfs_read : List Node → Option ℕ → Option (List ℕ)
vfs_read ns none = none
vfs_read ns (some f) = elim (get_elem? ns f) [
  | none ↦ none
  | some n ↦
      if not (n.kind == vfs_file)
      then none
      else elim n.content [ none ↦ some [] | some text ↦ some text ]
]

pub vfs_chmod : List Node → Option ℕ → ℕ → List Node
vfs_chmod ns none mode = ns
vfs_chmod ns (some f) mode = elim (get_elem? ns f) [
  | none ↦ ns
  | some n ↦ set ns f (record n { mode = mode % 2 ^ 12 })
]

-- `mem2`: memory for the target; `target` is none for a null pointer.
abbrev pub set_target : List Node → Option ℕ → Option (List ℕ) → Bool → List Node
set_target ns none target mem2 = ns
set_target ns (some k) none mem2 = ns
set_target ns (some k) (some target) mem2 = elim (get_elem? ns k) [
  | none ↦ ns
  | some n ↦
      if not mem2
      then ns
      else set ns k
          (record n { symlink_target = some (c_str target); size = length (c_str target) % 2 ^ 32 })
]

pub vfs_symlink :
    List Node → Option ℕ → List ℕ → Option (List ℕ) → Bool → Bool → List Node × Option ℕ
unfolding vfs_create
vfs_symlink ns parent name target mem mem2 =
    let made = vfs_create ns parent name vfs_symlink_type mem in
    (set_target made.0 made.1 target mem2, made.1)

-- The root before it has entries; its place is 0.
abbrev pub empty_root : Node
empty_root = record {
  name = copy_str (replicate vfs_name_max 0) (47 ∷ []) vfs_name_max;
  kind = vfs_directory;
  parent = 0;
  first_child = none;
  next_sibling = none;
  content = none;
  size = 0;
  mode = 0;
  uid = 0;
  symlink_target = none;
}

-- "home", "bin", "readme.txt", "user" and "notes.txt", and the two texts: "Welcome to VyFS - the
-- Vyro OS filesystem!" and "Build an OS from scratch. Done!".
abbrev pub name_home : List ℕ
name_home = 104 ∷ 111 ∷ 109 ∷ 101 ∷ []

abbrev pub name_bin : List ℕ
name_bin = 98 ∷ 105 ∷ 110 ∷ []

abbrev pub name_readme : List ℕ
name_readme = 114 ∷ 101 ∷ 97 ∷ 100 ∷ 109 ∷ 101 ∷ 46 ∷ 116 ∷ 120 ∷ 116 ∷ []

abbrev pub name_user : List ℕ
name_user = 117 ∷ 115 ∷ 101 ∷ 114 ∷ []

abbrev pub name_notes : List ℕ
name_notes = 110 ∷ 111 ∷ 116 ∷ 101 ∷ 115 ∷ 46 ∷ 116 ∷ 120 ∷ 116 ∷ []

abbrev pub readme_text : List ℕ
readme_text =
    87 ∷ 101 ∷ 108 ∷ 99 ∷ 111 ∷ 109 ∷ 101 ∷ 32 ∷ 116 ∷ 111 ∷ 32 ∷ 86 ∷ 121 ∷ 70 ∷ 83 ∷ 32 ∷ 45 ∷ 32
    ∷ 116 ∷ 104 ∷ 101 ∷ 32 ∷ 86 ∷ 121 ∷ 114 ∷ 111 ∷ 32 ∷ 79 ∷ 83 ∷ 32 ∷ 102 ∷ 105 ∷ 108 ∷ 101 ∷ 115
    ∷ 121 ∷ 115 ∷ 116 ∷ 101 ∷ 109 ∷ 33 ∷ []

abbrev pub notes_text : List ℕ
notes_text =
    66 ∷ 117 ∷ 105 ∷ 108 ∷ 100 ∷ 32 ∷ 97 ∷ 110 ∷ 32 ∷ 79 ∷ 83 ∷ 32 ∷ 102 ∷ 114 ∷ 111 ∷ 109 ∷ 32
    ∷ 115 ∷ 99 ∷ 114 ∷ 97 ∷ 116 ∷ 99 ∷ 104 ∷ 46 ∷ 32 ∷ 68 ∷ 111 ∷ 110 ∷ 101 ∷ 33 ∷ []

-- `vfs_init`, where there is memory for all of it.
pub vfs_init : List Node
unfolding vfs_create vfs_write
vfs_init =
    let home = vfs_create (empty_root ∷ []) (some 0) name_home vfs_directory true in
    let bin = vfs_create home.0 (some 0) name_bin vfs_directory true in
    let readme = vfs_create bin.0 (some 0) name_readme vfs_file true in
    let written = vfs_write readme.0 readme.1 readme_text true in
    let user = vfs_create written.0 home.1 name_user vfs_directory true in
    let notes = vfs_create user.0 user.1 name_notes vfs_file true in
    (vfs_write notes.0 notes.1 notes_text true).0

-- The names from a node up to the root, for at most `depth` nodes.
pub climb : ℕ → List Node → ℕ → List (List ℕ)
climb zero ns cur = []
climb (suc depth) ns cur = elim (get_elem? ns cur) [
  | none ↦ []
  | some n ↦ let rest = climb depth ns n.parent in if cur == 0 then [] else n.name ∷ rest
]

-- The names written root first, each behind a `/`; a name stops where `pos` is 255.
pub path_of : List (List ℕ) → List ℕ
path_of [] = []
path_of (name ∷ names) =
    let temp = path_of names ++ (47 ∷ []) in temp ++ take (255 - length temp) (c_str name)

-- `vfs_full_path` into the array `buf` of at least `buf_size` bytes. The text before it is copied
-- is as long as the code writes it, also behind the 256 bytes of `temp`.
pub vfs_full_path : List Node → Option ℕ → List ℕ → ℕ → List ℕ
unfolding climb path_of
vfs_full_path ns none buf buf_size = copy_str buf (47 ∷ []) buf_size
vfs_full_path ns (some k) buf buf_size =
    if k == 0
    then copy_str buf (47 ∷ []) buf_size
    else copy_str buf (path_of (climb 32 ns k)) buf_size

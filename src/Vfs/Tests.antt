-- ===== src/Vfs/Tests.antt =====
-- A tree with two files, what the code does with long names, and a path that leaves its buffer.
use vyro_os.Base.{ℕ, ◌≡◌, refl, true, none, some, List, [], ◌∷◌, ◌++◌, length, replicate, arith}
use vyro_os.Base.Text.{copy_str, copy_from, str_eq}
use vyro_os.Vfs.{
  Node, empty_root, vfs_file, find_from, find_in, vfs_find, link_last, link_child, fresh_node,
  create_in, vfs_create, vfs_remove, vfs_write, vfs_read, vfs_init, notes_text, path_of, name_notes,
}
use vyro_os.Vfs.Chain.{Entries, lookup, erase}
use vyro_os.Vfs.Dir.{IsDir, stored_name, vfs_create_twice, vfs_create_lem, vfs_find-create}
use vyro_os.Vfs.Unlink.{vfs_remove_lem}

abbrev name_a : List ℕ
name_a = 97 ∷ []

abbrev name_b : List ℕ
name_b = 98 ∷ []

abbrev root_one : Node
root_one = record empty_root { first_child = some 1 }

abbrev node_a : Node
node_a = record empty_root { name = name_a; kind = vfs_file }

-- The root with the file `a`.
abbrev tree : List Node
tree = root_one ∷ node_a ∷ []

abbrev entries : Entries
entries = (1, name_a) ∷ []

tree-IsDir : IsDir tree 0 root_one entries
tree-IsDir =
    (refl, refl, (refl, node_a, refl, refl, refl), (tt, tt), (omega arith, tt), omega arith)

vfs_create_lem_example :
    ((vfs_create tree (some 0) name_b vfs_file true).1 ≡ some (length tree))
    × (dir' : Node) × IsDir
        (vfs_create tree (some 0) name_b vfs_file true).0
        0
        dir'
        (entries ++ ((length tree, stored_name name_b) ∷ []))
unfolding lookup str_eq
vfs_create_lem_example =
    vfs_create_lem tree 0 root_one entries name_b vfs_file tree-IsDir (refl, refl) refl

vfs_find-create_example :
    vfs_find (vfs_create tree (some 0) name_b vfs_file true).0 (some 0) name_b
    ≡ (vfs_create tree (some 0) name_b vfs_file true).1
unfolding lookup str_eq
vfs_find-create_example =
    vfs_find-create tree 0 root_one entries name_b vfs_file tree-IsDir (refl, refl) (omega arith)
      refl

vfs_create_twice_example : vfs_create tree (some 0) name_a vfs_file true ≡ (tree, none)
unfolding lookup str_eq
vfs_create_twice_example =
    vfs_create_twice tree 0 root_one entries name_a vfs_file true 1 tree-IsDir (refl, refl) refl

vfs_remove_lem_example :
    ((vfs_remove tree (some 0) name_a).1 ≡ 1)
    × (dir' : Node) × IsDir (vfs_remove tree (some 0) name_a).0 0 dir' (erase entries name_a)
unfolding lookup str_eq
vfs_remove_lem_example = vfs_remove_lem tree 0 root_one entries name_a 1 tree-IsDir refl

-- The tree that `vfs_init` builds: "/home/user/notes.txt" is the node 5.
notes_found : vfs_find vfs_init (some 4) name_notes ≡ some 5
unfolding vfs_init vfs_create create_in find_in find_from link_child link_last fresh_node vfs_write
    vfs_find copy_str copy_from str_eq
notes_found = refl

notes_read : vfs_read vfs_init (some 5) ≡ some notes_text
unfolding vfs_init vfs_create create_in find_in find_from link_child link_last fresh_node vfs_write
    vfs_read copy_str copy_from str_eq
notes_read = refl

-- A name of more than 63 bytes is cut, so it is not found again, and is created a second time.
abbrev long_name : List ℕ
long_name = replicate 64 97

long_name_twice :
    (vfs_create
      (vfs_create tree (some 0) long_name vfs_file true).0
      (some 0)
      long_name
      vfs_file
      true).1
    ≡ some 3
unfolding vfs_create create_in find_in find_from link_child link_last fresh_node copy_str copy_from
    str_eq
long_name_twice = refl

-- Ten names of 60 bytes: 260 bytes are written into the 256 of `temp`, before the final 0.
path_too_long : length (path_of (replicate 10 (replicate 60 97))) ≡ 260
unfolding path_of
path_too_long = refl

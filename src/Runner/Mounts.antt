-- ===== src/Runner/Mounts.antt =====
-- The mounts of the machine, and which file system holds a path: codex-runner/src/sqlite-storage.ts.
pub mod Longest
use artifact_dev_toolkit.Common.{
  ℕ, zero, suc, Bool, true, false, not, ◌&&◌, ◌||◌, Option, none, some, List, [], ◌∷◌, ◌++◌, length,
  any, filter, ltb, ◌==◌, if◌then◌else◌,
}
use artifact_dev_toolkit.Common.Text.{
  Text, codes, text_eq, is_truthy, starts_with, to_lower_case, split,
}
use artifact_dev_toolkit.Common.Sorting.{sort_by}

pub data FilesystemClass : Type 0 where
  local : FilesystemClass
  network : FilesystemClass
  unknown : FilesystemClass

pub record Mount : Type 0 where
  pub mount_point : Text
  pub filesystem_type : Text

-- `values[n]`
unfoldable pub get_elem? : List Text → ℕ → Option Text
get_elem? [] n = none
get_elem? (value ∷ values) zero = some value
get_elem? (value ∷ values) (suc n) = get_elem? values n

-- `values.indexOf(value)`, where there is none for -1
unfoldable pub index_of : Text → List Text → Option ℕ
index_of value [] = none
index_of value (other ∷ values) =
    let rest = index_of value values in
    if text_eq other value then some 0 else elim rest [ none ↦ none | some n ↦ some (suc n) ]

-- `text.replace(/\\040/g, " ")`
unfoldable pub unescape_spaces : Text → Text
unescape_spaces (a ∷ b ∷ c ∷ d ∷ s) =
    let kept = a ∷ unescape_spaces (b ∷ c ∷ d ∷ s) in
    let replaced = b' ' ∷ unescape_spaces s in
    if text_eq (a ∷ b ∷ c ∷ d ∷ []) (codes "\\040") then replaced else kept
unescape_spaces s = s

abbrev pub mount_of : Option Text → Option Text → List Mount
mount_of (some mount_point) (some filesystem_type) =
    if is_truthy mount_point && is_truthy filesystem_type
    then record { mount_point = unescape_spaces mount_point; filesystem_type = filesystem_type }
      ∷ []
    else []
mount_of _ _ = []

unfoldable pub parse_mount_line : Text → List Mount
parse_mount_line line =
    let fields = split b' ' line in
    elim (index_of (codes "-") fields) [
      | none ↦ []
      | some separator ↦ mount_of (get_elem? fields 4) (get_elem? fields (suc separator))
    ]

unfoldable pub parse_mount_lines : List Text → List Mount
parse_mount_lines [] = []
parse_mount_lines (line ∷ lines) = parse_mount_line line ++ parse_mount_lines lines

unfoldable pub parse_mount_info : Text → List Mount
parse_mount_info text = parse_mount_lines (split b'\n' text)

-- `mountPoint.replace(/\/$/, "")`
unfoldable pub drop_final_slash : Text → Text
drop_final_slash [] = []
drop_final_slash (c ∷ []) = if c == b'/' then [] else c ∷ []
drop_final_slash (c ∷ d ∷ s) = c ∷ drop_final_slash (d ∷ s)

unfoldable pub covers : Text → Mount → Bool
covers path mount =
    text_eq path mount.mount_point
    || starts_with path (drop_final_slash mount.mount_point ++ codes "/")

abbrev pub is_shorter : Mount → Mount → Bool
is_shorter a b = ltb (length a.mount_point) (length b.mount_point)

abbrev pub network_types : List Text
network_types =
    codes "nfs"
    ∷ codes "nfs4"
    ∷ codes "cifs"
    ∷ codes "smb"
    ∷ codes "smbfs"
    ∷ codes "9p"
    ∷ codes "ceph"
    ∷ codes "glusterfs"
    ∷ codes "fuse.sshfs"
    ∷ []

unfoldable pub is_network : Text → Bool
is_network filesystem_type = any (text_eq (to_lower_case filesystem_type)) network_types

unfoldable pub class_of : List Mount → FilesystemClass
class_of [] = unknown
class_of (mount ∷ mounts) = if is_network mount.filesystem_type then network else local

unfoldable pub classify_filesystem : Text → List Mount → FilesystemClass
classify_filesystem path mounts = class_of (sort_by is_shorter (filter (covers path) mounts))

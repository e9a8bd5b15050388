-- ===== src/Gitlab/Types.antt =====
-- internal/shared/vcs/gitlab: the records of discussion.go and diffrefs.go.
use opencode_reviewer.Prelude.{Bool, false, not, ◌&&◌, List, [], ◌∷◌, Option}
use opencode_reviewer.GoText.{Bytes}
use opencode_reviewer.GoInt.{ℤ}

pub record Author : Type 0 where
  pub id : ℤ
  pub username : Bytes
  pub name : Bytes

pub record Position : Type 0 where
  pub position_type : Bytes
  pub base_sha : Bytes
  pub head_sha : Bytes
  pub start_sha : Bytes
  pub old_path : Bytes
  pub new_path : Bytes
  pub old_line : ℤ
  pub new_line : ℤ

pub record Note : Type 0 where
  pub id : ℤ
  pub body : Bytes
  pub system : Bool
  pub resolvable : Bool
  pub resolved : Bool
  pub author : Author
  pub position : Option Position

pub record Discussion : Type 0 where
  pub id : Bytes
  pub individual_note : Bool
  pub notes : List Note

pub record DiffRefs : Type 0 where
  pub base_sha : Bytes
  pub head_sha : Bytes
  pub start_sha : Bytes

-- A single note without replies, neither written by the system nor resolved.
unfoldable pub clearable : Discussion → Bool
clearable d = elim d.notes [
  | n ∷ ns ↦ elim ns [ [] ↦ not n.system && not (n.resolvable && n.resolved) | _ ↦ false ]
  | _ ↦ false
]

-- ===== src/Catalog.antt =====
-- catalog/catalog.go and catalog/schema.sql: the index of assets and their copies. A statement of
-- SQL is a function on the tables with its documented meaning, constraints and foreign keys
-- included; the engine is not code of the repository.
pub mod Locations
pub mod Assets
pub mod Copies
pub mod Companions
pub mod Sources
pub mod Invariant
pub mod Worklists
mod Tests
use mediamanager.Base.{
  ℕ, ◌*◌, ◌≡◌, ◌↔◌, Bool, true, false, List, [], arith, Text, Eq, ◌==◌, ℕ_eq, Text_eq, Pair_eq,
}
use mediamanager.Base.Int.{ℤ, ℤ_eq}
use mediamanager.Media.{Kind, Kind_eq}
use mediamanager.Clock.{Time}

-- LocationKind
pub data LocationKind : Type 0 where
  source spool nas : LocationKind

unfoldable pub location_kind_eq : LocationKind → LocationKind → Bool
location_kind_eq source source = true
location_kind_eq spool spool = true
location_kind_eq nas nas = true
location_kind_eq _ _ = false

pub location_kind_eq_iff : (a b : LocationKind) → (location_kind_eq a b ≡ true) ↔ (a ≡ b)
unfolding location_kind_eq
location_kind_eq_iff a b = ground arith

instance abbrev pub LocationKind_eq : Eq LocationKind
LocationKind_eq = record { beq = location_kind_eq; beq_iff = location_kind_eq_iff }

-- Location
pub record Location : Type 0 where
  pub id : ℕ
  pub kind : LocationKind
  pub name : Text
  pub volume_uuid : Text
  pub label : Text
  pub priority : ℤ
  pub root : Text

-- Asset
pub record Asset : Type 0 where
  pub id : Text
  pub scheme : Text
  pub kind : Kind
  pub size : ℕ
  pub full_sha256 : Text
  pub orig_name : Text
  pub capture_time : Time
  pub rel_path : Text
  pub project : Text
  pub pinned : Bool

-- CopyState
pub data CopyState : Type 0 where
  partial complete mismatch : CopyState

unfoldable pub copy_state_eq : CopyState → CopyState → Bool
copy_state_eq partial partial = true
copy_state_eq complete complete = true
copy_state_eq mismatch mismatch = true
copy_state_eq _ _ = false

pub copy_state_eq_iff : (a b : CopyState) → (copy_state_eq a b ≡ true) ↔ (a ≡ b)
unfolding copy_state_eq
copy_state_eq_iff a b = ground arith

instance abbrev pub CopyState_eq : Eq CopyState
CopyState_eq = record { beq = copy_state_eq; beq_iff = copy_state_eq_iff }

-- Copy, as its row holds it. A query that joins the location returns a `JoinedCopy`.
pub record Copy : Type 0 where
  pub asset_id : Text
  pub location_id : ℕ
  pub rel_path : Text
  pub state : CopyState
  pub verified_at : Time
  pub full_sha256 : Text

-- Copy with its Location filled in
pub record JoinedCopy : Type 0 where
  pub copy : Copy
  pub open copy use *
  pub location : Location

-- Role
pub data Role : Type 0 where
  proxy sidecar proxy_sidecar : Role

unfoldable pub role_eq : Role → Role → Bool
role_eq proxy proxy = true
role_eq sidecar sidecar = true
role_eq proxy_sidecar proxy_sidecar = true
role_eq _ _ = false

pub role_eq_iff : (a b : Role) → (role_eq a b ≡ true) ↔ (a ≡ b)
unfolding role_eq
role_eq_iff a b = ground arith

instance abbrev pub Role_eq : Eq Role
Role_eq = record { beq = role_eq; beq_iff = role_eq_iff }

-- Role.Regenerable
unfoldable pub regenerable : Role → Bool
regenerable r = r == proxy

-- Companion
pub record Companion : Type 0 where
  pub asset_id : Text
  pub location_id : ℕ
  pub role : Role
  pub ext : Text
  pub rel_path : Text
  pub sha256 : Text

-- SourceFile
pub record SourceFile : Type 0 where
  pub location_id : ℕ
  pub path : Text
  pub size : ℕ
  pub mod_time : Time
  pub asset_id : Text

-- Import
pub record Import : Type 0 where
  pub id : ℕ
  pub location_id : ℕ
  pub started_at : Time
  pub finished_at : Time
  pub new : ℕ
  pub skipped : ℕ
  pub failed : ℕ

-- The tables of schema.sql.
pub record Db : Type 0 where
  pub locations : List Location
  pub assets : List Asset
  pub copies : List Copy
  pub companions : List Companion
  pub source_files : List SourceFile
  pub imports : List Import

abbrev pub empty : Db
empty = record {
  locations = [];
  assets = [];
  copies = [];
  companions = [];
  source_files = [];
  imports = [];
}

pub data Error : Type 0 where
  -- ErrNotFound
  not_found : Error
  -- ErrPathTaken
  path_taken : Error
  -- PutAsset's refusals, and the constraints of schema.sql
  needs_id_and_path already_recorded check_failed no_such_key duplicate_key : Error

-- The keys of the tables.
abbrev pub location_id_key : Location → ℕ
location_id_key l = l.id

abbrev pub location_name_key : Location → Text
location_name_key l = l.name

abbrev pub asset_key : Asset → Text
asset_key a = a.id

abbrev pub asset_path_key : Asset → Kind × Text
asset_path_key a = (a.kind, a.rel_path)

abbrev pub copy_key : Copy → Text × ℕ
copy_key c = (c.asset_id, c.location_id)

abbrev pub companion_key : Companion → Text × (ℕ × (Role × Text))
companion_key c = (c.asset_id, (c.location_id, (c.role, c.ext)))

abbrev pub source_file_key : SourceFile → ℕ × Text
source_file_key f = (f.location_id, f.path)

abbrev pub import_key : Import → ℕ
import_key i = i.id

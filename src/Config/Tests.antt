-- ===== src/Config/Tests.antt =====
-- Settings at concrete values, and the theorems on config/config.go applied to them.
use mediamanager.Base.{
  ◌≡◌, refl, true, false, none, some, [], ◌∷◌, codes, text_eq, has_prefix, contains, ℕ_eq, Text_eq,
  Pair_eq, ok,
}
use mediamanager.Base.Int.{pos, negsuc, ℤ_eq, int_ltb}
use mediamanager.Media.{video, kind_eq, Kind_eq}
use mediamanager.SlashPath
use mediamanager.Config.{
  Location, Config, Env, nas_while_importing, finish_trees, finish_locations, check_served, finish,
}
use mediamanager.Config.Checked.{IsValid, finish-IsValid}
use mediamanager.Config.Limits.{nas_while_importing-finish}

abbrev env : Env
env = record {
  home = some (codes "/home/u");
  xdg_config_home = [];
  xdg_data_home = codes "/data";
  zone_known = λ z. true;
}

abbrev disk : Location
disk = record {
  name = codes "disk";
  kind = codes "spool";
  path = codes "/spool";
  volume_uuid = [];
  priority = pos 2;
  trees = [];
}

abbrev vault : Location
vault = record {
  name = codes "vault";
  kind = codes "nas";
  path = codes "lib";
  volume_uuid = codes "U-1";
  priority = pos 1;
  trees = codes "video" ∷ [];
}

abbrev given : Config
given = record {
  catalog = codes "~/c.db";
  timezone = [];
  trees = (codes "video", record { subdir = []; link = codes "/edit" }) ∷ [];
  locations = disk ∷ vault ∷ [];
  extensions = record {
    video_exts = codes "mov" ∷ [];
    audio_exts = codes "wav" ∷ [];
    still_exts = codes "dng" ∷ [];
  };
  concurrency = record {
    per_source = pos 0;
    nas = negsuc 0;
    nas_during_import = some (pos 9);
    verify = pos 2;
  };
  temporal = none;
}

abbrev accepted : Config
accepted = record {
  catalog = codes "/home/u/c.db";
  timezone = codes "Local";
  trees = (codes "video", record { subdir = codes "video"; link = codes "/edit" }) ∷ [];
  locations = vault ∷ disk ∷ [];
  extensions = record {
    video_exts = codes "mov" ∷ [];
    audio_exts = codes "wav" ∷ [];
    still_exts = codes "dng" ∷ [];
  };
  concurrency = record {
    per_source = pos 1;
    nas = pos 3;
    nas_during_import = some (pos 9);
    verify = pos 2;
  };
  temporal = none;
}

given-accepted : finish env given ≡ ok accepted
unfolding finish mediamanager.Base.text_eq mediamanager.Config.finish_trees
    mediamanager.Media.kind_eq mediamanager.Base.contains SlashPath.is_abs
    mediamanager.Base.has_prefix mediamanager.Config.finish_locations
    mediamanager.Config.check_served SlashPath.join mediamanager.Base.Sorting.sort int_ltb
given-accepted = refl

finish-IsValid_example : IsValid accepted
finish-IsValid_example = finish-IsValid env given accepted given-accepted

nas_while_importing-finish_example :
    (int_ltb (nas_while_importing accepted.concurrency) (pos 0) ≡ false)
    × (int_ltb accepted.concurrency.nas (nas_while_importing accepted.concurrency) ≡ false)
nas_while_importing-finish_example = nas_while_importing-finish env given accepted given-accepted

-- ===== src/Tests/Archive.antt =====
-- Archives of volumes and id maps at concrete inputs.
use admiral_fleet.Prelude.{
  Text, codes, List, [], ◌∷◌, ◌++◌, none, some, pos, ◌≡◌, ◌≢◌, ◌↔◌, refl, inl, inr, arith, map,
  eq_text, has_prefix, trim_space, trim_left, is_space, lines,
}
use admiral_fleet.Fleet.Effects.{ok}
use admiral_fleet.Fleet.Paths.{join}
use admiral_fleet.Podman.IdMap.{
  IdMapEntry, map_id, host_to_container, user_namespace_map, parse_lines, fields, fields_from,
  parse_uint,
}
use admiral_fleet.Podman.IdMap.Inverse.{flip, Table, map_id-inverse}
use admiral_fleet.Executor.Archive.{
  Entry, File, Target, Volumes, IdMaps, filter_entries, filter_archive, collect_volume_tar,
  collect_volume, extract_mount_point, type_reg, type_dir,
}
use admiral_fleet.Executor.Archive.Inside.{
  Extracted, filter_archive-Extracted, one_link_refuses_all,
}
use admiral_fleet.Executor.Archive.Volume.{restored}
use admiral_fleet.Executor.Archive.RoundTrip.{files_of, restore_gives_back}

-- Container root is the user 1000 of the host, the other ids are above 100000.
abbrev table : List IdMapEntry
table =
    record { container_start = 0; host_start = 1000; count = 1 }
    ∷ record { container_start = 1; host_start = 100000; count = 65536 }
    ∷ []

table-Table : Table table
table-Table = ground arith

map_id-inverse_example :
    (map_id table 100998 ≡ some 999) ↔ (map_id (map flip table) 999 ≡ some 100998)
map_id-inverse_example = map_id-inverse table 100998 999 table-Table

-- The table as Podman shows it.
parsed_table : user_namespace_map (ok (codes "  0  1000  1\n  1  100000  65536\n")) ≡ ok table
unfolding user_namespace_map parse_lines lines fields fields_from parse_uint trim_space trim_left
    is_space
parsed_table = refl

abbrev maps : IdMaps
maps = record { users = table; groups = table }

abbrev root_dir : File
root_dir = record {
  path = codes ".";
  entry = record {
    name = codes "_data/";
    flag = type_dir;
    size = pos 0;
    uid = pos 1000;
    gid = pos 1000;
    content = none;
  };
}

abbrev page : File
page = record {
  path = codes "html/index";
  entry = record {
    name = codes "index";
    flag = type_reg;
    size = pos 2;
    uid = pos 100998;
    gid = pos 1000;
    content = some (codes "hi");
  };
}

-- Two volumes: `web` with a page, and `db` with a page of the same name.
abbrev volumes : Volumes
volumes = record {
  inspect = λ volume. ok (some (some volume ∷ []));
  walk = λ mountpoint. ok root_dir ∷ ok page ∷ [];
}

abbrev target : Text → Target
target name = record { volume = name; archive_prefix = name }

abbrev page_of : Text → Entry
page_of name = record (page.entry) { name = name ++ codes "/html/index" }

restore_gives_back_example :
    filter_entries maps (codes "web/") (page_of (codes "db") ∷ page_of (codes "web") ∷ []) none
    ≡ ok (restored maps (files_of volumes (target (codes "web"))))
unfolding map_id host_to_container eq_text join collect_volume_tar collect_volume
    extract_mount_point
restore_gives_back_example =
    restore_gives_back volumes maps (target (codes "db") ∷ []) [] (target (codes "web"))
      (page_of (codes "db") ∷ page_of (codes "web") ∷ []) (refl, (refl, (refl, tt)))
      (((refl, (refl, tt)), λ e. cc e), tt) tt
      (
        inl refl,
        (
          inr (
            (
              codes "html",
              codes "index" ∷ [],
              refl,
              (
                ((refl, (refl, (refl, (refl, tt)))), refl, refl, refl),
                (((refl, (refl, (refl, (refl, (refl, tt))))), refl, refl, refl), tt),
              ),
            ),
            inr (refl, refl, (codes "hi", refl)),
            (999, refl),
            (0, refl),
          ),
          tt,
        ),
      )
      refl

abbrev escaping : Entry
escaping = record (page.entry) { name = codes "web/../../etc/passwd" }

filter_archive-Extracted_example :
    Extracted (filter_archive (ok table) (ok table) (codes "web/") (escaping ∷ []) none)
filter_archive-Extracted_example =
    filter_archive-Extracted (ok table) (ok table) (codes "web/") (escaping ∷ []) none

-- A symbolic link, as `tar.FileInfoHeader` describes it.
abbrev link : Entry
link = record (page_of (codes "web")) { flag = b'2'; size = pos 0 }

one_link_refuses_all_example :
    filter_entries maps (codes "web/") (page_of (codes "web") ∷ link ∷ []) none
    ≢ ok (page_of (codes "web") ∷ [])
unfolding has_prefix
one_link_refuses_all_example =
    one_link_refuses_all maps (codes "web/") (page_of (codes "web") ∷ []) [] link none
      (page_of (codes "web") ∷ []) refl refl refl

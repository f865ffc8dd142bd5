-- ===== src/Rib/Community.antt =====
-- src/rib/community.rs: communities and the two projections of a list of them.
pub mod Notation
use bgpd_rs.Base.{ℕ, Option, none, some, List, filter_map}

pub data Community : Type 0 where
  standard extended : ℕ → Community

abbrev pub as_standard : Community → Option ℕ
as_standard (standard c) = some c
as_standard (extended c) = none

abbrev pub as_extended : Community → Option ℕ
as_extended (standard c) = none
as_extended (extended c) = some c

-- `CommunityList::standard` and `CommunityList::extended`
unfoldable pub all_standard : List Community → List ℕ
unfolding filter_map
all_standard = filter_map as_standard

unfoldable pub all_extended : List Community → List ℕ
unfolding filter_map
all_extended = filter_map as_extended

-- ===== src/Version/Tests.antt =====
-- Runs of semver.go and versions.go, and the theorems about them at concrete inputs.
use Prim.Native.Nat.{compare, Ordering}
use mathlib.Core.List.{Nodup-nil}
use gist.Prelude.{◌≡◌, refl, List, [], ◌∷◌, arith}
use gist.Text.{Bytes, codes, bytes_eq}
use gist.Sort.{by_insertion, insertion_sort}
use gist.Catalog.{kind_skill}
use gist.Version.{compare_semver, compare_identifier, compare_numeric}
use gist.Version.Decimal.{value_from, compare_numeric-compare}
use gist.Version.Store.{
  Version, VersionStore, new_version_store, add, Added, add-Added, IsOrdered, begin, call,
  Reached-IsOrdered, list_versions, versions_of,
}

abbrev ascending : List Bytes
ascending =
    codes "0.9.9"
    ∷ codes "1.0.0-alpha"
    ∷ codes "1.0.0-alpha.1"
    ∷ codes "1.0.0-alpha.beta"
    ∷ codes "1.0.0-2"
    ∷ codes "1.0.0+build"
    ∷ codes "1.0.10"
    ∷ codes "banana"
    ∷ []

compare_neighbours : List Bytes → List Ordering
compare_neighbours [] = []
compare_neighbours (v ∷ []) = []
compare_neighbours (v ∷ w ∷ vs) = compare_semver v w ∷ compare_neighbours (w ∷ vs)

neighbours :
    compare_neighbours ascending
    ≡ Ordering.lt ∷ Ordering.lt ∷ Ordering.lt ∷ Ordering.gt ∷ Ordering.lt ∷ Ordering.lt
      ∷ Ordering.lt ∷ []
unfolding compare_neighbours compare_semver compare_identifier
neighbours = refl

compare_numeric-compare_example :
    compare_numeric (codes "0010") (codes "9")
    ≡ compare (value_from 0 (codes "0010")) (value_from 0 (codes "9"))
compare_numeric-compare_example =
    compare_numeric-compare (codes "0010") (codes "9") (omega arith) (omega arith)

abbrev released : Bytes → Version
released n = record {
  ref = record { workspace_id = codes "w"; kind = kind_skill; id = codes "s"; version = n };
  state = codes "published";
  digest = record { algorithm = codes "sha256"; value = [] };
  created_at = 7;
  revoked_at = 0;
}

abbrev two_versions : VersionStore
two_versions =
    (add (by_insertion Version)
      (add (by_insertion Version) new_version_store (released (codes "1.10.0"))).0
      (released (codes "1.9.0"))).0

in_order :
    versions_of (list_versions two_versions (codes "w") kind_skill (codes "s"))
    ≡ codes "1.9.0" ∷ codes "1.10.0" ∷ []
unfolding add new_version_store list_versions compare_semver bytes_eq insertion_sort
in_order = refl

Reached-IsOrdered_example : IsOrdered two_versions
Reached-IsOrdered_example = Reached-IsOrdered (by_insertion Version) (
    call (add (by_insertion Version) new_version_store (released (codes "1.10.0"))).0
      (released (codes "1.9.0")) (call new_version_store (released (codes "1.10.0")) begin))

add-Added_example :
    Added new_version_store
      (released (codes "1.10.0"))
      (add (by_insertion Version) new_version_store (released (codes "1.10.0")))
add-Added_example =
    add-Added (by_insertion Version) new_version_store (released (codes "1.10.0")) (record {
      sorted = unfold new_version_store in λ k. tt;
      distinct = unfold new_version_store in λ k. Nodup-nil;
    })

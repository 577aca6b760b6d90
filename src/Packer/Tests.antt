-- ===== src/Packer/Tests.antt =====
-- A script, a module it imports, which imports the script in turn, and a file outside the root.
use pwshpy.Base.{
  true, false, ℕ, ◌≡◌, ◌↔◌, refl, List, [], ◌∷◌, ◌++◌, Option, none, some, inl, inr, In, Bool-cases,
  subst, ok, err, if◌then◌else◌,
}
use pwshpy.Text.{Text, codes, text_eq, mem_text, starts_with, ends_with, lower, replace}
use pwshpy.Text.Laws.{text_eq_iff}
use pwshpy.Packing.Imports.{
  Node, plain_import, unseen, node_candidates, with_parents, iter_import_candidates,
  candidate_relative_paths, classify_import,
}
use pwshpy.Packing.Imports.Candidates.{mem_text→In}
use pwshpy.Packer.Disk.{
  destination_is_packed, Disk, outside_root, resolve_local, package_parts, existing_file,
  read_bytes, require_under_root,
}
use pwshpy.Enums.RunnerFormat.{auto}
use pwshpy.Packer.Destination.{Naming, Options, resolve_format, guard_destination, plan}
use pwshpy.Packer.Destination.Kept.{IsPlan, plan-IsPlan}
use pwshpy.Packer.Collect.{
  Found, has, one_import, visit, imports_of, collect_from, add_included, require_all_under_root,
  unresolved, collect_sources, paths, Collected,
}
use pwshpy.Packer.Collect.Reached.{Reaches}
use pwshpy.Packer.Collect.Reached.Closed.{collect_from-Reaches}
use pwshpy.Packer.Collect.Ends.{collect_from-ends}

abbrev script : Text
script = codes "/main.py"

abbrev helper : Text
helper = codes "/helper.py"

abbrev outside : Text
outside = codes "x.py"

abbrev files : List Text
files = script ∷ helper ∷ outside ∷ []

-- A file is read as the first letter of its path's name, and the two of the root import each other.
abbrev sample : Disk Text Text
sample = record {
  same = text_eq;
  same_iff = text_eq_iff;
  child = λ root relative. root ++ codes "/" ++ relative;
  expanduser = λ p. p;
  resolve = λ p. p;
  is_file = λ p. mem_text p files;
  exists = λ p. mem_text p files;
  parts_below = λ p root. if starts_with (root ++ codes "/") p then some (p ∷ []) else none;
  read = λ p. some p;
  decode = λ body. body;
  name_of = λ p. p;
}

abbrev sample_parse : Text → Option (List Node)
sample_parse body =
    if text_eq body script
    then some (plain_import (codes "helper" ∷ codes "json" ∷ codes "requests" ∷ []) ∷ [])
    else some (plain_import (codes "main" ∷ []) ∷ [])

abbrev packed : Option (Collected sample)
packed = some (ok ((script, script) ∷ (helper, helper) ∷ [], codes "requests" ∷ []))

walked : collect_from sample sample_parse (codes "json" ∷ []) [] 20 [] [] (script ∷ []) ≡ packed
unfolding collect_from has visit one_import imports_of package_parts resolve_local read_bytes
    text_eq mem_text unseen node_candidates with_parents iter_import_candidates
    candidate_relative_paths classify_import replace
walked = refl

returned :
    collect_sources sample sample_parse (codes "json" ∷ []) [] 20 script (helper ∷ []) ≡ packed
unfolding collect_sources collect_from has visit one_import imports_of package_parts resolve_local
    read_bytes add_included require_all_under_root require_under_root existing_file unresolved
    text_eq mem_text unseen node_candidates with_parents iter_import_candidates
    candidate_relative_paths classify_import replace starts_with
returned = refl

refused :
    collect_sources sample sample_parse (codes "json" ∷ []) [] 20 script (outside ∷ [])
    ≡ some (err (outside_root outside))
unfolding collect_sources collect_from has visit one_import imports_of package_parts resolve_local
    read_bytes add_included require_all_under_root require_under_root existing_file unresolved
    text_eq mem_text unseen node_candidates with_parents iter_import_candidates
    candidate_relative_paths classify_import replace starts_with
refused = refl

sample_finite : (dotted : Text) (q : Text) → resolve_local sample [] dotted ≡ some q → In q files
unfolding resolve_local
sample_finite dotted q h =
    let (file, package_file) = candidate_relative_paths dotted in
    let p1 = sample.child [] file in
    let p2 = sample.child [] package_file in
    elim (Bool-cases (sample.is_file p1)) [
      | inl a ↦
          let e : p1 ≡ q = cc (rw a at h) in subst (λ z. In z files) e (mem_text→In p1 files a)
      | inr a ↦ elim (Bool-cases (sample.is_file p2)) [
        | inl b ↦
            let e : p2 ≡ q = cc (rw (a, b) at h) in
            subst (λ z. In z files) e (mem_text→In p2 files b)
        | inr b ↦ absurd (cc (rw (a, b) at h))
      ]
    ]

collect_from-Reaches_example :
    In helper (paths sample ((script, script) ∷ (helper, helper) ∷ []))
    ↔ Reaches sample sample_parse (codes "json" ∷ []) [] script helper
collect_from-Reaches_example =
    collect_from-Reaches sample sample_parse (codes "json" ∷ []) [] script 20
      ((script, script) ∷ (helper, helper) ∷ []) (codes "requests" ∷ []) walked helper

collect_from-ends_example :
    (fuel : ℕ) × (r : Collected sample) × (collect_from sample sample_parse
        (codes "json" ∷ [])
        []
        fuel
        []
        []
        (script ∷ [])
      ≡ some r)
collect_from-ends_example =
    collect_from-ends sample sample_parse (codes "json" ∷ []) [] files sample_finite script
      (inl refl)

abbrev sample_naming : Naming Text
sample_naming = record {
  parent = λ p. [];
  suffix = λ p. if ends_with (codes ".sh") p then codes ".sh" else [];
  with_suffix = λ p suffix. p ++ suffix;
}

abbrev options : Options Text
options = record {
  include = helper ∷ [];
  with_packages = [];
  root = some [];
  force = false;
  format = auto;
}

abbrev planned : Text × Found sample × List Text
planned = (codes "/tool.sh", (script, script) ∷ (helper, helper) ∷ [], codes "requests" ∷ [])

planned_runner :
    plan sample sample_naming sample_parse
      (codes "json" ∷ [])
      20
      script
      (some (codes "/tool.sh"))
      options
    ≡ some (ok planned)
unfolding plan guard_destination resolve_format collect_sources collect_from has visit one_import
    imports_of package_parts resolve_local read_bytes add_included require_all_under_root
    require_under_root existing_file unresolved text_eq mem_text unseen node_candidates with_parents
    iter_import_candidates candidate_relative_paths classify_import replace starts_with ends_with
    lower
planned_runner = refl

packed_destination :
    guard_destination sample sample_naming helper (script ∷ helper ∷ []) true
    ≡ err (destination_is_packed helper)
unfolding guard_destination text_eq
packed_destination = refl

plan-IsPlan_example :
    (file : Text) × (existing_file sample script ≡ ok file)
    × IsPlan sample sample_naming sample_parse (codes "json" ∷ []) options file planned
plan-IsPlan_example =
    plan-IsPlan sample sample_naming sample_parse (codes "json" ∷ []) 20 script
      (some (codes "/tool.sh")) options planned planned_runner

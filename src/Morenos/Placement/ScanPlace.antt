-- ===== src/Morenos/Placement/ScanPlace.antt =====
-- The place of a scan that `place_scan` looks for.
use radar_software.Prelude.{sym, ℕ, ◌≤◌, ◌≡◌, ◌∙◌, arith, Option, none, some}
use radar_software.Morenos.ScanPair.{ScanPair}
use radar_software.Morenos.Placement.{Conveyors, chunks, find_index, scan_plan}
use radar_software.Morenos.Placement.First.{find_index-first}
use radar_software.Morenos.Placement.Find.{IsPlace, find_index-IsPlace}

abbrev pub plan_depth : ScanPair → ℕ
plan_depth scan_pair = (scan_plan scan_pair).depth

-- A chunk at which `place_scan` puts a pair.
abbrev pub IsScanPlace : Conveyors → ScanPair → ℕ → Type 0
IsScanPlace c scan_pair idx =
    let plan = scan_plan scan_pair in
    IsPlace c (chunks plan.transmit_len) (chunks plan.receive_len) plan.range_offset_len plan.depth
      idx

-- That chunk, and no earlier one.
abbrev pub IsFirstPlace : Conveyors → ScanPair → ℕ → Type 0
IsFirstPlace c scan_pair idx =
    IsScanPlace c scan_pair idx × ((other : ℕ) → IsScanPlace c scan_pair other → idx ≤ other)

pub plan_depth_small : (scan_pair : ScanPair) → plan_depth scan_pair ≤ 1500
unfolding scan_plan
plan_depth_small scan_pair = ground arith

-- The search for the place of a scan.
abbrev plan_index : Conveyors → ScanPair → Option ℕ
plan_index c scan_pair =
    let plan = scan_plan scan_pair in
    find_index c plan.transmit_len plan.receive_len plan.range_offset_len plan.depth

first_found :
    (c : Conveyors) (scan_pair : ScanPair) (idx : ℕ)
    → IsScanPlace c scan_pair idx
    → (first : ℕ) × (plan_index c scan_pair ≡ some first) × (first ≤ idx)
first_found c scan_pair idx place =
    let plan = scan_plan scan_pair in
    find_index-first c plan.transmit_len plan.receive_len plan.range_offset_len plan.depth idx
      (omega (arith, plan_depth_small scan_pair)) place

pub no_place :
    (c : Conveyors) (scan_pair : ScanPair)
    → plan_index c scan_pair ≡ none
    → (idx : ℕ) → ¬ (IsScanPlace c scan_pair idx)
no_place c scan_pair e idx place =
    let (first, found, early) = first_found c scan_pair idx place in
    none-ne_some first (sym e ∙ found)
  where
    none-ne_some : (first : ℕ) → ◌≡◌ {A = Option ℕ} none (some first) → ⊥
    none-ne_some first bad = cc

pub found_first :
    (c : Conveyors) (scan_pair : ScanPair) (idx : ℕ)
    → plan_index c scan_pair ≡ some idx
    → IsFirstPlace c scan_pair idx
found_first c scan_pair idx e =
    let plan = scan_plan scan_pair in
    (
      find_index-IsPlace c plan.transmit_len plan.receive_len plan.range_offset_len plan.depth idx
          (omega (arith, plan_depth_small scan_pair)) e,
      λ other place.
          let (first, found, early) = first_found c scan_pair other place in
          omega (arith, some-injective first (sym e ∙ found)),
    )
  where
    some-injective : (first : ℕ) → ◌≡◌ {A = Option ℕ} (some idx) (some first) → idx ≡ first
    some-injective first same = cc

-- ===== src/Scheduler/Competitors.antt =====
-- democracy-scheduler/src/main.rs: `enum Competitors` and its `from_str`.
use managed_linux_democracy.Prelude.{
  ◌≡◌, ◌↔◌, arith, if◌then◌else◌, Bool, true, false, ◌==◌, PartialEq, Option, none, some,
}
use managed_linux_democracy.Prelude.Text.{
  Text, codes, text_eq, text_eqb_iff, Unicode, to_lowercase, to_lowercase_iff, Spells,
}

pub data Competitors : Type 0 where
  summer1 summer2 : Competitors

abbrev same_competitor : Competitors → Competitors → Bool
same_competitor summer1 summer1 = true
same_competitor summer1 summer2 = false
same_competitor summer2 summer1 = false
same_competitor summer2 summer2 = true

pub same_competitor_iff : (a b : Competitors) → (same_competitor a b ≡ true) ↔ (a ≡ b)
same_competitor_iff a b = ground arith

instance abbrev pub competitors_eq : PartialEq Competitors
competitors_eq = record { same = same_competitor; same_iff = same_competitor_iff }

abbrev pub title : Competitors → Text
title summer1 = codes "summer1"
title summer2 = codes "summer2"

module _ (u : Unicode) where
  -- `none` is the error "Unknown competitor".
  unfoldable pub from_str : Text → Option Competitors
  from_str input =
      let lowered = to_lowercase u input in
      if lowered == codes "summer1"
      then some summer1
      else if lowered == codes "summer2"
      then some summer2
      else none

  from_str-lowered :
      (s : Text) (c : Competitors) → (from_str s ≡ some c) ↔ (to_lowercase u s ≡ title c)
  unfolding from_str
  from_str-lowered s summer1 = ground (
    arith,
    text_eqb_iff (to_lowercase u s) (codes "summer1"),
    text_eqb_iff (to_lowercase u s) (codes "summer2"),
  )
  from_str-lowered s summer2 = ground (
    arith,
    text_eqb_iff (to_lowercase u s) (codes "summer1"),
    text_eqb_iff (to_lowercase u s) (codes "summer2"),
  )

  title-lowered : (s : Text) (c : Competitors) → (to_lowercase u s ≡ title c) ↔ Spells s (title c)
  title-lowered s summer1 = to_lowercase_iff u s (codes "summer1") (omega arith)
  title-lowered s summer2 = to_lowercase_iff u s (codes "summer2") (omega arith)

  -- The same texts as those that spell the competitor's name, in upper or lower case.
  pub from_str_iff : (s : Text) (c : Competitors) → (from_str s ≡ some c) ↔ Spells s (title c)
  from_str_iff s c = (
    λ h. (title-lowered s c).0 ((from_str-lowered s c).0 h),
    λ h. (from_str-lowered s c).1 ((title-lowered s c).1 h),
  )

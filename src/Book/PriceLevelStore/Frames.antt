-- ===== src/Book/PriceLevelStore/Frames.antt =====
-- src/book/PriceLevelStore.cpp: what addValidated and eraseValidated leave alone.
use astra_feed_engine.Prelude.{
  ℕ, ◌-◌, ◌≡◌, inl, inr, refl, ap, ◌==◌, arith, if_elim, Bool-cases, inc_u32, dec_u32, add_u64,
  sub_u64,
}
use astra_feed_engine.Book.{OrderSide}
use astra_feed_engine.Book.PriceLevelStore.{PricePage, PriceAddress, PriceLevelStore}
use astra_feed_engine.Book.PriceLevelStore.Levels.{level_unchecked, write_level}
use astra_feed_engine.Book.PriceLevelStore.Additions.{
  activate_in_page, activate_in_book, activate_level, add_validated,
}
use astra_feed_engine.Book.PriceLevelStore.Deactivation.{
  DeactivationPlan, deactivate_level, deactivate_in_page, empty_page, deactivate_in_book,
}
use astra_feed_engine.Book.PriceLevelStore.Removals.{erase_validated}
use astra_feed_engine.Book.PriceLevelStore.Soundness.{level_of}
use astra_feed_engine.Book.PriceLevelStore.Adding.{joined}
use astra_feed_engine.Book.PriceLevelStore.Removing.{reduced}

-- Only summaries and bitmaps differ, and the levels are those of `pages`.
pub record Keeps (s : PriceLevelStore) (pages : ℕ → PricePage) (s' : PriceLevelStore) : Type 0 where
  pub pages_eq : s'.pages ≡ pages
  pub config_eq : s'.config ≡ s.config
  pub roots_eq : s'.roots ≡ s.roots
  pub prepared_eq : s'.prepared_books ≡ s.prepared_books
  pub owners_eq : s'.page_owners ≡ s.page_owners
  pub committed_eq : s'.committed_pages ≡ s.committed_pages

deactivate_level-Keeps :
    (a : PriceAddress) (side : OrderSide) (p : DeactivationPlan) (s : PriceLevelStore)
    → Keeps s s.pages (deactivate_level a side p s)
unfolding deactivate_level deactivate_in_page empty_page deactivate_in_book
deactivate_level-Keeps a side p s = elim (Bool-cases p.page_becomes_empty) [
  | inl e ↦ record {
    pages_eq = ground (arith, e);
    config_eq = ground (arith, e);
    roots_eq = ground (arith, e);
    prepared_eq = ground (arith, e);
    owners_eq = ground (arith, e);
    committed_eq = ground (arith, e);
  }
  | inr e ↦ record {
    pages_eq = ground (arith, e);
    config_eq = ground (arith, e);
    roots_eq = ground (arith, e);
    prepared_eq = ground (arith, e);
    owners_eq = ground (arith, e);
    committed_eq = ground (arith, e);
  }
]

pub add_validated-Keeps :
    (a : PriceAddress) (side : OrderSide) (qty : ℕ) (s : PriceLevelStore)
    → Keeps s
        (write_level a side (joined qty (level_unchecked a side s)) s).pages
        (add_validated a side qty s)
unfolding add_validated activate_level activate_in_page activate_in_book write_level inc_u32 add_u64
add_validated-Keeps a side qty s = elim (Bool-cases ((level_unchecked a side s).order_count == 0)) [
  | inl e ↦ record {
    pages_eq = ground (arith, e);
    config_eq = ground (arith, e);
    roots_eq = ground (arith, e);
    prepared_eq = ground (arith, e);
    owners_eq = ground (arith, e);
    committed_eq = ground (arith, e);
  }
  | inr e ↦ record {
    pages_eq = ground (arith, e);
    config_eq = ground (arith, e);
    roots_eq = ground (arith, e);
    prepared_eq = ground (arith, e);
    owners_eq = ground (arith, e);
    committed_eq = ground (arith, e);
  }
]

pub erase_validated-Keeps :
    (a : PriceAddress) (side : OrderSide) (qty : ℕ) (p : DeactivationPlan) (s : PriceLevelStore)
    → Keeps s
        (write_level a side (reduced qty (level_unchecked a side s)) s).pages
        (erase_validated a side qty p s)
unfolding erase_validated write_level dec_u32 sub_u64
erase_validated-Keeps a side qty p s =
    let w = write_level a side (reduced qty (level_unchecked a side s)) s in
    let k = deactivate_level-Keeps a side p w in
    if_elim (Keeps s w.pages) ((level_unchecked a side s).order_count == 1)
      (λ _. record {
        pages_eq = k.pages_eq;
        config_eq = k.config_eq;
        roots_eq = k.roots_eq;
        prepared_eq = k.prepared_eq;
        owners_eq = k.owners_eq;
        committed_eq = k.committed_eq;
      })
      (λ _. record {
        pages_eq = refl;
        config_eq = refl;
        roots_eq = refl;
        prepared_eq = refl;
        owners_eq = refl;
        committed_eq = refl;
      })

-- A level is read from the pages alone.
pub level_of-pages :
    (s s' : PriceLevelStore)
    → s'.pages ≡ s.pages
    → (h : ℕ) (side : OrderSide) (i : ℕ) → level_of h side i s' ≡ level_of h side i s
unfolding level_unchecked
level_of-pages s s' e h OrderSide.buy i = ap (λ (x : ℕ → PricePage). (x (h - 1)).bids i) e
level_of-pages s s' e h OrderSide.sell i = ap (λ (x : ℕ → PricePage). (x (h - 1)).asks i) e
level_of-pages s s' e h OrderSide.no_side i = ap (λ (x : ℕ → PricePage). (x (h - 1)).asks i) e

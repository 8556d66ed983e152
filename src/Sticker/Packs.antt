-- ===== src/Sticker/Packs.antt =====
-- What a pack shows.
use slps_team.Prelude.{
  ℕ, suc, arith, ◌≡◌, refl, ◌∙◌, Bool, true, false, ◌&&◌, ◌==◌, leb, keep, tally, List, [], ◌∷◌,
  Bool-cases, inl, inr,
}
use slps_team.Prelude.Sort.{in_order, sort, tally-sort, in_order-sort}
use slps_team.Errors.{Sentinel, sentinel}
use slps_team.Flow.{Result, ok, err}
use slps_team.Sql.{Db, sql_steps}
use slps_team.Sticker.{Sticker, StickerTables}
use slps_team.Sticker.Store.{in_pack, in_front, get_stickers_by_pack_rows}
use slps_team.Sticker.Service.{get_stickers_by_pack_id}

front_trans : (s r q : Sticker) → in_front s r ≡ true → in_front r q ≡ true → in_front s q ≡ true
front_trans s r q e f = ground (arith, e, f)

front_total : (s r : Sticker) → in_front s r ≡ false → in_front r s ≡ true
front_total s r e = ground (arith, e)

-- A list shows a pack where, for every test, it has as many stickers that pass the test as the table
-- has with the id of the pack, and no sticker stands before one of a smaller position.
pub record IsPack (pack_id : ℕ) (t : StickerTables) (shown : List Sticker) : Type 0 where
  pub counted :
      (p : Sticker → Bool) → tally p shown ≡ tally (λ s. p s && s.pack_id == pack_id) t.stickers
  pub ordered : in_order (λ s r. leb s.position r.position) shown ≡ true

tally-in_pack :
    (pack_id : ℕ) (p : Sticker → Bool) (ss : List Sticker)
    → tally p (keep (in_pack pack_id) ss) ≡ tally (λ s. p s && s.pack_id == pack_id) ss
tally-in_pack pack_id p [] = refl
tally-in_pack pack_id p (s ∷ ss) = ground (arith, tally-in_pack pack_id p ss)

order-IsPack :
    (pack_id : ℕ) (t : StickerTables)
    → IsPack pack_id t (sort in_front (keep (in_pack pack_id) t.stickers))
order-IsPack pack_id t = record {
  counted = λ p.
      tally-sort in_front p (keep (in_pack pack_id) t.stickers)
      ∙ tally-in_pack pack_id p t.stickers;
  ordered = in_order-sort in_front front_trans front_total (keep (in_pack pack_id) t.stickers);
}

abbrev pub Shows : ℕ → StickerTables → Result (List Sticker) → Type 0
Shows pack_id t (ok shown) = IsPack pack_id t shown
Shows pack_id t (err e) = e ≡ sentinel Sentinel.db

-- In any environment, GetStickersByPackID gives the stickers whose pack id is the one asked for, each
-- as often as the table has it and no other, with their positions never going down, or ErrDB; and it
-- changes no row.
pub get_stickers_by_pack_id-Shows :
    (pack_id : ℕ) (db : Db StickerTables)
    → Shows pack_id db.tables (get_stickers_by_pack_id pack_id db).0
      × (get_stickers_by_pack_id pack_id db).1.tables ≡ db.tables
unfolding get_stickers_by_pack_id get_stickers_by_pack_rows
get_stickers_by_pack_id-Shows pack_id db = elim (Bool-cases (db.env.fails db.statements)) [
  | inl down ↦ simp (down, sql_steps) (refl, refl)
  | inr up ↦ elim (Bool-cases (db.env.result_fails (suc db.statements))) [
    | inl broken ↦ simp (up, broken, sql_steps) (refl, refl)
    | inr whole ↦ simp (up, whole, sql_steps) (order-IsPack pack_id db.tables, refl)
  ]
]

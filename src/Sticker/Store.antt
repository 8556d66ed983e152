-- ===== src/Sticker/Store.antt =====
-- `DBStickerStore` of internal/repository/db/sticker.go, method by method. Logging is left out.
use slps_team.Prelude.{
  ℕ, Bool, ◌==◌, leb, List, [], ◌∷◌, map, keep, Option, none, some, if◌then◌else◌,
}
use slps_team.Prelude.Sort.{sort}
use slps_team.Errors.{Sentinel}
use slps_team.Flow.{Action, pure, fail, ◌>>=◌}
use slps_team.Sql.{Db, query, result_of, wrap_error}
use slps_team.Sticker.{StickerPack, Sticker, PackRow, StickerTables}

abbrev pub Method : Type 0 → Type 0
Method A = Action (Db StickerTables) A

-- `ORDER BY created_at DESC`
abbrev pub newer : PackRow → PackRow → Bool
newer p q = leb q.created_at p.created_at

abbrev pub pack_of : PackRow → StickerPack
pack_of p = p.pack

unfoldable pub get_sticker_packs_rows : Method (List StickerPack)
get_sticker_packs_rows = do
  packs ←
      wrap_error "failed to get sticker packs" (query λ t. some (map pack_of (sort newer t.packs)))
  result_of packs

abbrev pub in_pack : ℕ → Sticker → Bool
in_pack pack_id s = s.pack_id == pack_id

-- `ORDER BY position`
abbrev pub in_front : Sticker → Sticker → Bool
in_front s r = leb s.position r.position

unfoldable pub get_stickers_by_pack_rows : ℕ → Method (List Sticker)
get_stickers_by_pack_rows pack_id = do
  stickers ←
      wrap_error "failed to get stickers by pack ID"
        (query λ t. some (sort in_front (keep (in_pack pack_id) t.stickers)))
  result_of stickers

abbrev pub select_sticker : ℕ → List Sticker → Option Sticker
select_sticker id [] = none
select_sticker id (s ∷ ss) = if s.id == id then some s else select_sticker id ss

abbrev pub sticker_or_not_found : Option Sticker → Method Sticker
sticker_or_not_found none = fail Sentinel.not_found
sticker_or_not_found (some s) = pure s

unfoldable pub get_sticker_row : ℕ → Method Sticker
get_sticker_row id = do
  found ← wrap_error "failed to get sticker by ID" (query λ t. some (select_sticker id t.stickers))
  sticker_or_not_found found

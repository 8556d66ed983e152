-- ===== src/Sticker/Service.antt =====
-- `StickerService` of internal/service/sticker.go. Logging is left out.
use slps_team.Prelude.{ℕ, List}
use slps_team.Errors.{Sentinel}
use slps_team.Flow.{or_return}
use slps_team.Sticker.{StickerPack, Sticker}
use slps_team.Sticker.Store.{
  Method, get_sticker_packs_rows, get_stickers_by_pack_rows, get_sticker_row,
}

unfoldable pub get_sticker_packs : Method (List StickerPack)
get_sticker_packs = or_return Sentinel.db get_sticker_packs_rows

unfoldable pub get_stickers_by_pack_id : ℕ → Method (List Sticker)
get_stickers_by_pack_id pack_id = or_return Sentinel.db (get_stickers_by_pack_rows pack_id)

-- The error of the store is passed on.
unfoldable pub get_sticker_by_id : ℕ → Method Sticker
get_sticker_by_id id = get_sticker_row id

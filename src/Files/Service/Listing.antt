-- ===== src/Files/Service/Listing.antt =====
-- `List` and `Search` of server/internal/files/service.go.
use swa_drive.Base.{◌+◌}
use swa_drive.Base.Text.{Text}
use swa_drive.Base.Int.{ℤ}
use swa_drive.Platform.{Platform}
use swa_drive.Auth.Model.{Identity}
use swa_drive.Files.Pages.{
  Codec, Page, list_request, search_request, list_index, search_index, list_cursor, search_cursor,
  page_of,
}
use swa_drive.World.{M, ◌>>=◌, query, lift, pure}

module _ (env : Platform) (codec : Codec) where
  unfoldable pub list_files : Identity → (path : Text) → ℤ → (cursor : Text) → M Page
  list_files who value limit_value cursor_value =
      lift (list_request env codec who value limit_value cursor_value) >>= λ (path, limit, c).
      query (list_index path.value (limit + 1) c) >>= λ entries.
      pure (page_of env codec (list_cursor path.value) limit entries)

  unfoldable pub search_files : Identity → (text : Text) → ℤ → (cursor : Text) → M Page
  search_files who value limit_value cursor_value =
      lift (search_request env codec who value limit_value cursor_value) >>= λ (text, limit, c).
      query (search_index text (limit + 1) c) >>= λ entries.
      pure (page_of env codec (search_cursor text) limit entries)

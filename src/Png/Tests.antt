-- ===== src/Png/Tests.antt =====
-- internal/crypto/polyglot.go at concrete inputs.
use discord_free_cloud.Base.{ℕ, ◌≤◌, ◌≡◌, List, [], ◌∷◌, ◌++◌, some, length, arith}
use discord_free_cloud.Png.{
  png_magic, wrap_png, unwrap_png, ddat_type, text_type, iend_type, carries,
}
use discord_free_cloud.Png.Frames.{Frame, stream}
use discord_free_cloud.Png.RoundTrip.{unwrap_png-stream, unwrap_png-wrap_png}
use discord_free_cloud.Png.Bounds.{unwrap_png_total}

abbrev two_texts : List Frame
two_texts = (ddat_type, 7 ∷ 8 ∷ []) ∷ (iend_type, []) ∷ (text_type, 9 ∷ []) ∷ []

unwrap_png-wrap_png_example : unwrap_png (wrap_png (1 ∷ 2 ∷ 3 ∷ [])) ≡ some (1 ∷ 2 ∷ 3 ∷ [])
unwrap_png-wrap_png_example = unwrap_png-wrap_png (1 ∷ 2 ∷ 3 ∷ []) (omega arith)

unwrap_png-stream_example : unwrap_png (png_magic ++ stream two_texts) ≡ some (7 ∷ 8 ∷ 9 ∷ [])
unfolding carries
unwrap_png-stream_example = unwrap_png-stream two_texts (omega arith)

-- bytes that are no PNG file come back as they are
unwrap_png_total_example : (r : List ℕ) × (unwrap_png (1 ∷ 2 ∷ []) ≡ some r) × (length r ≤ 2)
unwrap_png_total_example = unwrap_png_total (1 ∷ 2 ∷ [])

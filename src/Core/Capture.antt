-- ===== src/Core/Capture.antt =====
-- crates/rdesk_core/src/capture: the capturer that draws a gradient.
--
-- A write outside the vector panics in the source: the result is then none.
pub mod Gradient
use rdesk.Prelude.{
  ℕ, zero, suc, ◌+◌, ◌*◌, ◌%◌, Bool, true, Option, none, some, List, [], ◌∷◌, Text, codes, Bytes, ℤ,
  pos,
}

pub record CursorInfo : Type 0 where
  pub hotspot_x : ℤ
  pub hotspot_y : ℤ
  pub x : ℤ
  pub y : ℤ
  pub width : ℕ
  pub height : ℕ
  pub image : Bytes

pub record CapturedFrame : Type 0 where
  pub width : ℕ
  pub height : ℕ
  pub stride : ℕ
  pub pixels : Bytes
  pub cursor : Option CursorInfo

pub record DisplayInfo : Type 0 where
  pub id : ℕ
  pub name : Text
  pub x : ℤ
  pub y : ℤ
  pub width : ℕ
  pub height : ℕ
  pub is_primary : Bool

pub record DesktopCapturer : Type 0 where
  pub display : DisplayInfo

abbrev default_width : ℕ
default_width = 1280

abbrev default_height : ℕ
default_height = 720

unfoldable pub new : DesktopCapturer
new = record {
  display = record {
    id = 0;
    name = codes "Primary Display";
    x = pos 0;
    y = pos 0;
    width = default_width;
    height = default_height;
    is_primary = true;
  };
}

unfoldable pub create_capturer : DesktopCapturer
create_capturer = new

unfoldable pub displays : DesktopCapturer → List DisplayInfo
displays capturer = capturer.display ∷ []

-- The arithmetic of `u32`.
abbrev pub wrap : ℕ → ℕ
wrap n = n % 4294967296

-- `vec![0u8; n]`.
unfoldable pub zeros : ℕ → Bytes
zeros zero = []
zeros (suc n) = 0 ∷ zeros n

-- `data[i] = b`.
unfoldable pub write_byte : ℕ → ℕ → Bytes → Option Bytes
write_byte i b [] = none
write_byte zero b (c ∷ bytes) = some (b ∷ bytes)
write_byte (suc i) b (c ∷ bytes) = elim (write_byte i b bytes) [
  | none ↦ none
  | some written ↦ some (c ∷ written)
]

infixl 20 ◌>>=◌
abbrev ◌>>=◌ : Option Bytes → (Bytes → Option Bytes) → Option Bytes
none >>= f = none
some bytes >>= f = f bytes

unfoldable pub write_pixel : ℕ → ℕ → ℕ → Bytes → Option Bytes
unfolding write_byte
write_pixel width y x bytes = do
  let idx = wrap (wrap (wrap (y * width) + x) * 4)
  one ← write_byte idx (x % 255) bytes
  two ← write_byte (idx + 1) (y % 255) one
  three ← write_byte (idx + 2) 32 two
  write_byte (idx + 3) 255 three

-- The inner loop, with `n` columns left from `x` on.
unfoldable pub draw_columns : ℕ → ℕ → ℕ → ℕ → Bytes → Option Bytes
draw_columns width y x zero bytes = some bytes
draw_columns width y x (suc n) bytes =
    write_pixel width y x bytes >>= draw_columns width y (suc x) n

-- The outer loop, with `n` rows left from `y` on.
unfoldable pub draw_rows : ℕ → ℕ → ℕ → Bytes → Option Bytes
draw_rows width y zero bytes = some bytes
draw_rows width y (suc n) bytes = draw_columns width y 0 width bytes >>= draw_rows width (suc y) n

unfoldable pub capture_frame : DesktopCapturer → Option CapturedFrame
unfolding draw_rows draw_columns write_pixel zeros
capture_frame capturer =
    let width = capturer.display.width in
    let height = capturer.display.height in
    elim (draw_rows width 0 height (zeros (wrap (wrap (width * height) * 4)))) [
      | none ↦ none
      | some bytes ↦ some (record {
        width = width;
        height = height;
        stride = wrap (width * 4);
        pixels = bytes;
        cursor = none;
      })
    ]

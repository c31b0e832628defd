-- ===== src/Core/Capture/Gradient.antt =====
-- crates/rdesk_core/src/capture/desktop.rs: what the loops draw.
use rdesk.Prelude.{
  ℕ, zero, suc, ◌+◌, ◌*◌, ◌%◌, ◌<◌, ◌≡◌, refl, ap, sym, ◌∙◌, none, some, [], ◌∷◌, ◌++◌, arith,
  Bytes, length, length-append, append_assoc,
}
use rdesk.Core.Capture.{
  DesktopCapturer, wrap, zeros, write_byte, write_pixel, draw_columns, draw_rows, capture_frame,
}

abbrev pixel : ℕ → ℕ → Bytes
pixel x y = x % 255 ∷ y % 255 ∷ 32 ∷ 255 ∷ []

-- The pixels of a row from the column `x` on, and the rows from `y` on, in order.
unfoldable pub row_from : ℕ → ℕ → ℕ → Bytes
row_from y x zero = []
row_from y x (suc n) = pixel x y ++ row_from y (suc x) n

unfoldable pub rows_from : ℕ → ℕ → ℕ → Bytes
unfolding row_from
rows_from width y zero = []
rows_from width y (suc n) = row_from y 0 width ++ rows_from width (suc y) n

-- Pixels of zeros.
abbrev blank : ℕ → Bytes
blank zero = []
blank (suc n) = 0 ∷ 0 ∷ 0 ∷ 0 ∷ blank n

zeros-blank : (n : ℕ) → zeros (n * 4) ≡ blank n
unfolding zeros
zeros-blank zero = refl
zeros-blank (suc n) =
    let e : suc n * 4 ≡ suc (suc (suc (suc (n * 4)))) = omega arith in
    ap zeros e ∙ ap (λ rest. 0 ∷ 0 ∷ 0 ∷ 0 ∷ rest) (zeros-blank n)

blank-add : (m n : ℕ) → blank (m + n) ≡ blank m ++ blank n
blank-add zero n = ap blank (omega arith)
blank-add (suc m) n =
    let e : suc m + n ≡ suc (m + n) = omega arith in
    ap blank e ∙ ap (λ rest. 0 ∷ 0 ∷ 0 ∷ 0 ∷ rest) (blank-add m n)

write_byte-append :
    (front tail written : Bytes) (k b : ℕ)
    → write_byte k b tail ≡ some written
    → write_byte (length front + k) b (front ++ tail) ≡ some (front ++ written)
unfolding write_byte
write_byte-append [] tail written k b e = ap (λ i. write_byte i b tail) (omega arith) ∙ e
write_byte-append (c ∷ front) tail written k b e =
    let i : suc (length front) + k ≡ suc (length front + k) = omega arith in
    rw (i, write_byte-append front tail written k b e) refl

write_pixel_lem :
    (width y x : ℕ) (front rest : Bytes)
    → length front ≡ (y * width + x) * 4
    → (y * width + x) * 4 < 4294967296
    → write_pixel width y x (front ++ 0 ∷ 0 ∷ 0 ∷ 0 ∷ rest) ≡ some (front ++ (pixel x y ++ rest))
unfolding write_pixel write_byte
write_pixel_lem width y x front rest at fits =
    let idx : wrap (wrap (wrap (y * width) + x) * 4) ≡ length front = omega arith in
    let zeroth : length front + 0 ≡ length front = omega arith in
    let one =
      write_byte-append front (0 ∷ 0 ∷ 0 ∷ 0 ∷ rest) (x % 255 ∷ 0 ∷ 0 ∷ 0 ∷ rest) 0 (x % 255)
        refl in
    let two =
      write_byte-append front (x % 255 ∷ 0 ∷ 0 ∷ 0 ∷ rest) (x % 255 ∷ y % 255 ∷ 0 ∷ 0 ∷ rest) 1
        (y % 255) refl in
    let three =
      write_byte-append front (x % 255 ∷ y % 255 ∷ 0 ∷ 0 ∷ rest) (x % 255 ∷ y % 255 ∷ 32 ∷ 0 ∷ rest)
        2 32 refl in
    let four =
      write_byte-append front (x % 255 ∷ y % 255 ∷ 32 ∷ 0 ∷ rest) (pixel x y ++ rest) 3 255 refl in
    rw (idx, rw zeroth at one, two, three, four) refl

draw_columns_lem :
    (width y x n : ℕ) (front rest : Bytes)
    → length front ≡ (y * width + x) * 4
    → (y * width + x + n) * 4 < 4294967296
    → draw_columns width y x n (front ++ (blank n ++ rest))
      ≡ some (front ++ (row_from y x n ++ rest))
unfolding draw_columns row_from
draw_columns_lem width y x zero front rest at fits = refl
draw_columns_lem width y x (suc n) front rest at fits =
    let next =
      draw_columns_lem width y (suc x) n (front ++ pixel x y) rest
        (length-append front (pixel x y) ∙ omega arith) (omega arith) in
    rw (write_pixel_lem width y x front (blank n ++ rest) at (omega arith)) (
      ap (draw_columns width y (suc x) n) (sym (append_assoc front (pixel x y) (blank n ++ rest)))
      ∙ next
      ∙ ap (λ bytes. some bytes) (append_assoc front (pixel x y) (row_from y (suc x) n ++ rest)))

length-row_from : (y x n : ℕ) → length (row_from y x n) ≡ n * 4
unfolding row_from
length-row_from y x zero = omega arith
length-row_from y x (suc n) =
    length-append (pixel x y) (row_from y (suc x) n) ∙ omega (arith, length-row_from y (suc x) n)

draw_rows_lem :
    (width y n : ℕ) (front : Bytes)
    → length front ≡ y * width * 4
    → (y + n) * width * 4 < 4294967296
    → draw_rows width y n (front ++ blank (n * width)) ≡ some (front ++ rows_from width y n)
unfolding draw_rows rows_from
draw_rows_lem width y zero front at fits =
    let nothing : 0 * width ≡ 0 = omega arith in rw nothing refl
draw_rows_lem width y (suc n) front at fits =
    let row = row_from y 0 width in
    let split : blank (suc n * width) ≡ blank width ++ blank (n * width) =
      ap blank (omega arith) ∙ blank-add width (n * width) in
    let drawn =
      draw_columns_lem width y 0 width front (blank (n * width)) (at ∙ omega arith) (omega arith) in
    let next =
      draw_rows_lem width (suc y) n (front ++ row)
        (length-append front row ∙ omega (arith, length-row_from y 0 width)) (omega arith) in
    rw (split, drawn)
      (ap (draw_rows width (suc y) n) (sym (append_assoc front row (blank (n * width))))
        ∙ next
        ∙ ap (λ bytes. some bytes) (append_assoc front row (rows_from width (suc y) n)))

-- Where the frame is smaller than 2 ^ 32 bytes, no write is outside the vector, and the pixels are
-- those of the gradient, row by row: with the column and the row modulo 255 and the constants 32
-- and 255.
pub capture_frame_lem :
    (capturer : DesktopCapturer)
    → capturer.display.width * capturer.display.height * 4 < 4294967296
    → capture_frame capturer
      ≡ some (record {
        width = capturer.display.width;
        height = capturer.display.height;
        stride = wrap (capturer.display.width * 4);
        pixels = rows_from capturer.display.width 0 capturer.display.height;
        cursor = none;
      })
unfolding capture_frame
capture_frame_lem capturer fits =
    let w = capturer.display.width in
    let h = capturer.display.height in
    let size : wrap (wrap (w * h) * 4) ≡ h * w * 4 = omega arith in
    let drawn = draw_rows_lem w 0 h [] (omega arith) (omega arith) in
    let out : draw_rows w 0 h (zeros (wrap (wrap (w * h) * 4))) ≡ some (rows_from w 0 h) =
      ap (λ n. draw_rows w 0 h (zeros n)) size
      ∙ ap (draw_rows w 0 h) (zeros-blank (h * w))
      ∙ drawn in
    ground arith

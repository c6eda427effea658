-- ===== src/Video.antt =====
-- drivers/video/video.c and the driver record of include/kernel/video.h. `V` is the state of the video
-- hardware; a function pointer that may be null is an `Option`.
pub mod Vga
use holyos.Base.{ℕ, Option, none, some}

-- `video_color_t`
pub record Color : Type 0 where
  pub r : ℕ
  pub g : ℕ
  pub b : ℕ

-- `struct video_driver`, without the fields that no driver in the build sets.
pub record VideoDriver (V : Type 0) : Type 0 where
  pub priority : ℕ
  pub probe : V → ℕ × V
  pub write : Option (ℕ → ℕ → ℕ → Color → Color → V → V)
  pub clear : Option (Color → V → V)
  pub scroll : Option (V → V)
  pub width : ℕ
  pub height : ℕ
  pub bpp : ℕ

-- The three calls pass on to the current driver, if there is one and it has the operation.
module _ {V : Type 0} where
  unfoldable pub video_write : Option (VideoDriver V) → ℕ → ℕ → ℕ → Color → Color → V → V
  video_write none c x y fg bg v = v
  video_write (some driver) c x y fg bg v = elim driver.write [
    | none ↦ v
    | some write ↦ write c x y fg bg v
  ]

  unfoldable pub video_clear : Option (VideoDriver V) → Color → V → V
  video_clear none color v = v
  video_clear (some driver) color v = elim driver.clear [ none ↦ v | some clear ↦ clear color v ]

  unfoldable pub video_scroll : Option (VideoDriver V) → V → V
  video_scroll none v = v
  video_scroll (some driver) v = elim driver.scroll [ none ↦ v | some scroll ↦ scroll v ]

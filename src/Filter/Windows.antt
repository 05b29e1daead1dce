-- ===== src/Filter/Windows.antt =====
-- The hours of a block rule: the texts of times against the minutes of the day.
use block_proxy.Common.{ℕ, ◌+◌, ◌-◌, ◌/◌, ◌%◌, ◌<◌, ◌≡◌, refl, arith, [], ◌∷◌, leb}
use block_proxy.Wire.Buffer.{Text, decimal}
use block_proxy.Filter.Blocks.{two_digits, time_text, text_leb, in_window}

two_digits_lem : (n : ℕ) → n < 100 → two_digits n ≡ (n / 10 + 48) ∷ (n % 10 + 48) ∷ []
unfolding decimal
two_digits_lem n h = ground arith

-- The time of a minute of the day.
abbrev pub time_of : ℕ → Text
time_of m = time_text (m / 60) (m % 60)

time_of_lem :
    (m : ℕ)
    → m < 1440
    → time_of m
      ≡ (m / 60 / 10 + 48)
        ∷ (m / 60 % 10 + 48)
        ∷ b':'
        ∷ (m % 60 / 10 + 48)
        ∷ (m % 60 % 10 + 48)
        ∷ []
time_of_lem m h =
    rw (two_digits_lem (m / 60) (omega arith), two_digits_lem (m % 60) (omega arith)) refl

-- The order of the texts is that of the minutes.
text_leb-time_of : (m n : ℕ) → m < 1440 → n < 1440 → text_leb (time_of m) (time_of n) ≡ leb m n
unfolding text_leb
text_leb-time_of m n h k = rw (time_of_lem m h, time_of_lem n k) (ground arith)

-- A rule from one minute of the day to another holds at the minutes that lie no further behind its
-- start than its end does, counted around the clock.
pub in_window-time_of :
    (start end now : ℕ)
    → start < 1440
    → end < 1440
    → now < 1440
    → in_window (time_of start) (time_of end) (time_of now)
      ≡ leb ((now + 1440 - start) % 1440) ((end + 1440 - start) % 1440)
unfolding in_window
in_window-time_of start end now hs he hn =
    rw
      (
        text_leb-time_of start end hs he,
        text_leb-time_of start now hs hn,
        text_leb-time_of now end hn he,
        in_window,
      )
      (ground arith)

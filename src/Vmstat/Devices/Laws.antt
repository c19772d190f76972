-- ===== src/Vmstat/Devices/Laws.antt =====
-- What the disk report prints, and when it sleeps, and which options exclude each other.
use yc_360_script.Prelude.{
  ℕ, zero, suc, ◌+◌, ◌-◌, ◌%◌, ◌^◌, ◌≤◌, ◌<◌, ◌≡◌, refl, sym, ap, ◌∙◌, append-nil, Bool, true,
  false, List, [], ◌∷◌, ◌++◌, take, length, leb, ltb, ◌==◌, ◌&&◌, ◌||◌, if◌then◌else◌, inl, inr,
  Bool-cases, arith,
}
use yc_360_script.Vmstat.Options.{Settings, Mode, Result, go, exit}
use yc_360_script.Vmstat.Devices.{
  Device, Event, column_titles, device_row, partition_row, slab_row, pause, not_found, titles_at,
  next_int, as_long, disk_rows, pause_at, sampled, titles_once, diskformat, Report, chosen,
  choose_report,
}

-- The events without the titles of columns.
abbrev pub untitled : List Event → List Event
untitled [] = []
untitled (column_titles ∷ es) = untitled es
untitled (e ∷ es) = e ∷ untitled es

-- The rows of a sample: its disks, in order.
abbrev pub disk_lines : List Device → List Event
disk_lines [] = []
disk_lines (d ∷ ds) = if d.is_disk then device_row d ∷ disk_lines ds else disk_lines ds

-- Samples with a pause between each and the next one.
abbrev pub paced : ℕ → List (List Device) → List Event
paced n [] = []
paced n (x ∷ []) = disk_lines x
paced n (x ∷ y ∷ xs) = disk_lines x ++ pause n ∷ paced n (y ∷ xs)

untitled-append : (xs ys : List Event) → untitled (xs ++ ys) ≡ untitled xs ++ untitled ys
untitled-append [] ys = refl
untitled-append (column_titles ∷ xs) ys = untitled-append xs ys
untitled-append (device_row d ∷ xs) ys = ap (◌∷◌ (device_row d)) (untitled-append xs ys)
untitled-append (partition_row a b c d ∷ xs) ys =
    ap (◌∷◌ (partition_row a b c d)) (untitled-append xs ys)
untitled-append (slab_row n ns ∷ xs) ys = ap (◌∷◌ (slab_row n ns)) (untitled-append xs ys)
untitled-append (pause n ∷ xs) ys = ap (◌∷◌ (pause n)) (untitled-append xs ys)
untitled-append (not_found ∷ xs) ys = ap (◌∷◌ not_found) (untitled-append xs ys)

titles_at-untitled :
    (s : Settings) (j : ℕ) (es : List Event) → untitled (titles_at s j ++ es) ≡ untitled es
titles_at-untitled s j es = elim (Bool-cases (s.moreheaders && j % s.height == 0)) [
  | inl titles ↦ simp titles refl
  | inr none' ↦ simp none' refl
]

titles_once-untitled :
    (s : Settings) (es : List Event) → untitled (titles_once s ++ es) ≡ untitled es
titles_once-untitled s es = elim (Bool-cases s.moreheaders) [
  | inl more ↦ simp more refl
  | inr once ↦ simp once refl
]

disk_rows-untitled :
    (s : Settings) (j : ℕ) (ds : List Device) → untitled (disk_rows s j ds) ≡ disk_lines ds
unfolding disk_rows
disk_rows-untitled s j [] = refl
disk_rows-untitled s j (d ∷ ds) = elim (Bool-cases d.is_disk) [
  | inl disk ↦ simp disk (
      titles_at-untitled s j (device_row d ∷ disk_rows s (j + 1) ds)
      ∙ ap (◌∷◌ (device_row d)) (disk_rows-untitled s (j + 1) ds))
  | inr part ↦ simp part (disk_rows-untitled s (j + 1) ds)
]

abbrev pause_if : ℕ → Bool → List Event
pause_if n b = if b then pause n ∷ [] else []

untitled-pause_if : (n : ℕ) (b : Bool) → untitled (pause_if n b) ≡ pause_if n b
untitled-pause_if n true = refl
untitled-pause_if n false = refl

pause_at-pause_if :
    (s : Settings) (i : ℕ)
    → s.infinite_updates ≡ false
    → s.num_updates < 2 ^ 31
    → i < s.num_updates
    → pause_at s i ≡ pause_if s.sleep_time (ltb 0 (s.num_updates - (i + 1)))
pause_at-pause_if s i f n h =
    let same : ltb (as_long (next_int i)) s.num_updates ≡ ltb 0 (s.num_updates - (i + 1)) =
      ground arith in
    simp (f, same) refl

paced-take :
    (n m : ℕ) (x : List Device) (xs : List (List Device))
    → m ≤ length xs
    → paced n (x ∷ take m xs) ≡ disk_lines x ++ (pause_if n (ltb 0 m) ++ paced n (take m xs))
paced-take n zero x xs h = sym (append-nil (disk_lines x))
paced-take n (suc m) x [] h = absurd (omega (arith, h))
paced-take n (suc m) x (y ∷ ys) h = let more : ltb 0 (suc m) ≡ true = ground arith in simp more refl

take-none : (n : ℕ) → take {A = List Device} n [] ≡ []
take-none zero = refl
take-none (suc n) = refl

sampled-paced :
    (xs : List (List Device)) (s : Settings) (i : ℕ)
    → s.infinite_updates ≡ false
    → s.num_updates < 2 ^ 31
    → i ≤ s.num_updates
    → s.num_updates - i ≤ length xs
    → untitled (sampled s (disk_rows s 0) i xs) ≡ paced s.sleep_time (take (s.num_updates - i) xs)
unfolding sampled
sampled-paced [] s i f n le enough = ap (paced s.sleep_time) (sym (take-none (s.num_updates - i)))
sampled-paced (x ∷ xs) s i f n le enough =
    let left = s.num_updates - (i + 1) in
    let rest = sampled s (disk_rows s 0) (next_int i) xs in
    elim (Bool-cases (ltb i s.num_updates)) [
      | inr done ↦
          let test : ltb (as_long i) s.num_updates ≡ false = ground (arith, done) in
          let none_left : s.num_updates - i ≡ 0 = ground (arith, done) in
          simp (f, test, none_left) refl
      | inl more ↦
          let test : ltb (as_long i) s.num_updates ≡ true = ground (arith, more) in
          let one_more : s.num_updates - i ≡ suc left = ground (arith, more) in
          let inside : i < s.num_updates = ground (arith, more) in
          let next : next_int i ≡ i + 1 = omega (arith, inside, n) in
          let later =
            sampled-paced xs s (i + 1) f n (omega (arith, inside))
              (omega (arith, one_more, enough)) in
          let round : untitled (disk_rows s 0 x ++ (pause_at s i ++ rest))
              ≡ paced s.sleep_time (x ∷ take left xs) =
            untitled-append (disk_rows s 0 x) (pause_at s i ++ rest)
            ∙ ap (λ z. z ++ untitled (pause_at s i ++ rest)) (disk_rows-untitled s 0 x)
            ∙ ap (λ z. disk_lines x ++ z)
                (ap (λ p. untitled (p ++ rest)) (pause_at-pause_if s i f n inside)
                  ∙ untitled-append (pause_if s.sleep_time (ltb 0 left)) rest
                  ∙ ap (λ z. z ++ untitled rest) (untitled-pause_if s.sleep_time (ltb 0 left))
                  ∙ ap (λ z. pause_if s.sleep_time (ltb 0 left) ++ z)
                      (ap (λ k. untitled (sampled s (disk_rows s 0) k xs)) next ∙ later))
            ∙ sym (paced-take s.sleep_time left x xs (omega (arith, one_more, enough))) in
          ap
            (λ b.
              untitled
                (if s.infinite_updates || b then disk_rows s 0 x ++ (pause_at s i ++ rest) else []))
            test
          ∙ ap (λ b. untitled (if b || true then disk_rows s 0 x ++ (pause_at s i ++ rest) else []))
              f
          ∙ round
          ∙ ap (λ k. paced s.sleep_time (take k (x ∷ xs))) (sym one_more)
    ]

-- A finite disk report of n rounds, for n below 2^31, prints the disks of its first n samples in their
-- order, one row for each and none for a partition, and sleeps once between each two rounds, not before
-- the first or behind the last. This leaves out the titles of the columns.
pub diskformat-rounds :
    (s : Settings) (samples : List (List Device))
    → s.infinite_updates ≡ false
    → s.num_updates ≤ length samples
    → s.num_updates < 2 ^ 31
    → untitled (diskformat s samples) ≡ paced s.sleep_time (take s.num_updates samples)
unfolding diskformat
diskformat-rounds s samples f h n =
    let all : s.num_updates - 0 ≡ s.num_updates = omega arith in
    titles_once-untitled s (sampled s (disk_rows s 0) 0 samples)
    ∙ sampled-paced samples s 0 f n (omega arith) (omega (arith, h))
    ∙ ap (λ k. paced s.sleep_time (take k samples)) all

-- How many of the five mode flags are set.
abbrev pub flag : Bool → ℕ
flag b = if b then 1 else 0

abbrev pub flags : Mode → ℕ
flags m = flag m.disk + flag m.sum + flag m.slab + flag m.partition_stat + flag m.disk_sum

-- A report is refused.
abbrev pub refused : Result Report → Bool
refused (go r) = false
refused (exit e) = true

chosen-refused :
    (a b c d e : Bool)
    → refused (chosen a b c d e) ≡ leb 2 (flag a + flag b + flag c + flag d + flag e)
chosen-refused a b c d e = ground arith

-- The command line is refused exactly when it sets two or more different report modes.
choose_report-conflicts : (s : Settings) → refused (choose_report s) ≡ leb 2 (flags s.mode)
unfolding choose_report
choose_report-conflicts s =
    chosen-refused s.mode.disk s.mode.sum s.mode.slab s.mode.partition_stat s.mode.disk_sum

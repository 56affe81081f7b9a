-- ===== src/Tests/Uploads.antt =====
-- Requests to the web server on fixed inputs: a range of a file, a chunked body, an upload and its name.
use nxfr.Prelude.{
  ℕ, List, [], ◌∷◌, ◌≡◌, ◌≤◌, ◌<◌, refl, some, arith, length, codes, Bool, if◌then◌else◌, ltb, ◌==◌,
  ◌&&◌, ◌||◌, ◌%◌, split_on, list_eq, join_with,
}
use nxfr.Path.Jail.{FilePath}
use nxfr.Web.Range.{
  parse_range_header, trim_start, is_whitespace, plain_range, parse_u64, serve_range,
}
use nxfr.Web.Served.{IsReader, range_served}
use nxfr.Web.Chunked.{write_all}
use nxfr.Web.Dechunked.{dechunk, chunks_read_back}
use nxfr.Web.Upload.{upload_loop, stored, needle_of, alt_needle_of, position, starts_with}
use nxfr.Web.Boundary.{upload_streams}
use nxfr.Web.Filename.{upload_target, components_of, sanitize_filename}
use nxfr.Web.Inbox.{IsBelow, upload_stays_in_inbox}

-- A read takes one byte.
abbrev read_one : ℕ → ℕ → ℕ
read_one want there = if want == 0 || there == 0 then 0 else 1

is_reader : IsReader read_one
is_reader = record {
  at_most = λ want there. (ground arith, ground arith);
  some_byte = λ want there h k. ground arith;
}

abbrev content : List ℕ
content = 10 ∷ 20 ∷ 30 ∷ 40 ∷ 50 ∷ []

last_three : parse_range_header (codes "bytes=2-") 5 ≡ some (2, 4)
unfolding parse_range_header trim_start is_whitespace split_on plain_range parse_u64
last_three = refl

range_served_example :
    (2 ≤ 4)
    × (4 < 5)
    × (serve_range read_one (2, 4) content ≡ 30 ∷ 40 ∷ 50 ∷ [])
    × (length (serve_range read_one (2, 4) content) ≡ 3)
range_served_example = range_served read_one is_reader (codes "bytes=2-") content 2 4 last_three

chunks_read_back_example :
    dechunk 4 (write_all ((1 ∷ 2 ∷ []) ∷ [] ∷ (3 ∷ []) ∷ [])) ≡ some (1 ∷ 2 ∷ 3 ∷ [])
chunks_read_back_example =
    chunks_read_back ((1 ∷ 2 ∷ []) ∷ [] ∷ (3 ∷ []) ∷ []) 4
      (omega arith, (omega arith, (omega arith, tt))) (omega arith)

-- The boundary "b", cut in two.
upload_streams_example :
    upload_loop 100
      (needle_of (codes "b"))
      (alt_needle_of (codes "b"))
      ((2 ∷ 13 ∷ 10 ∷ b'-' ∷ []) ∷ (b'-' ∷ b'b' ∷ []) ∷ [])
      (1 ∷ [])
      []
    ≡ stored (1 ∷ 2 ∷ [])
unfolding position starts_with
upload_streams_example =
    upload_streams 100 (needle_of (codes "b")) (alt_needle_of (codes "b")) [] (omega arith)
      ((2 ∷ 13 ∷ 10 ∷ b'-' ∷ []) ∷ (b'-' ∷ b'b' ∷ []) ∷ []) (1 ∷ []) (1 ∷ 2 ∷ []) refl refl refl
      (omega arith, (omega arith, tt)) (omega arith)

abbrev is_letter : ℕ → Bool
is_letter c = ltb 96 c && ltb c 123

abbrev no_random : ℕ → List ℕ
no_random i = i % 256 ∷ []

abbrev target : FilePath
target = codes "in" ∷ codes "a" ∷ codes "b" ∷ []

goes_down : upload_target is_letter no_random (codes "in" ∷ []) (codes "../a/./b") ≡ some target
unfolding upload_target components_of sanitize_filename split_on list_eq join_with
goes_down = refl

upload_stays_in_inbox_example : IsBelow (codes "in" ∷ []) target
upload_stays_in_inbox_example =
    upload_stays_in_inbox is_letter refl no_random (λ i. (omega arith, tt)) (codes "in" ∷ [])
      (codes "../a/./b") target goes_down

-- ===== src/Printer/Ticket.antt =====
-- main/printer/ESC.c, escHandleCommand: a job of texts, images and barcodes, and what is printed from it.
use gateway_esp.Prelude.{
  Bool, ltb, if◌then◌else◌, ℕ, ◌+◌, ◌*◌, ◌/◌, ◌≤◌, ◌<◌, ◌≡◌, refl, sym, ap, ◌∙◌, true, false, List,
  [], ◌∷◌, ◌++◌, Option, some, length, length-append, take, ℤ, pos, u8_of_int, arith,
}
use gateway_esp.Devices.Json.{
  Cjson, alignment_key, text_key, feed_key, image_key, width_key, height_key, barcode_key, type_key,
  string_of, number_of,
}
use gateway_esp.Printer.Buffer.{Transfer, write_all, write_all-append}
use gateway_esp.Printer.Commands.{newline, set_barcode_height}
use gateway_esp.Printer.Text.{IsModes, length-IsModes, mode_command, text_tail, print_text-transfer}
use gateway_esp.Printer.Image.{image_bytes, print_image-transfer, length-take}
use gateway_esp.Printer.Barcode.{char_at, IsText, barcode_bytes, print_barcode_lem}
use gateway_esp.Printer.Job.{
  Outcome, ended, followed_by, Job, or_default, alignment_of, line_spacing_of, printed_text,
  text_item, image_item, barcode_item,
}
use gateway_esp.Printer.Reader.{Printed, line, raster, barcode, IsPlain}
use gateway_esp.Printer.Shows.{Shows, Shows-append, text-Shows, image-Shows, barcode-Shows}

length-line :
    (text modes : List ℕ) (v : ℕ) (underline : Bool) (alignment : ℕ) (line_spacing : ℤ)
    → IsModes modes
    → length (modes ++ (mode_command v ++ text_tail underline alignment line_spacing text))
      ≡ length text + 22
length-line text modes v underline alignment line_spacing three = omega (
  arith,
  length-IsModes modes three,
  length-append {0} modes (mode_command v ++ text_tail underline alignment line_spacing text),
  length-append {0} text (newline ∷ []),
)

length-image_bytes :
    (w h alignment : ℕ) (image : List ℕ)
    → w / 8 * h ≤ length image
    → length (image_bytes w h alignment image) ≡ w / 8 * h + 15
length-image_bytes w h alignment image enough = omega (
  arith,
  length-take (w / 8 * h) image enough,
  length-append {0} (take (w / 8 * h) image) (27 ∷ b'3' ∷ 30 ∷ newline ∷ []),
)

module _ (j : Cjson) (base64_decode : List ℕ → List ℕ → List ℕ) (fuel : ℕ) where
  -- What a code does to a job: it ends, writes `size` bytes, from which a printer prints the given
  -- things, and leaves `feed_s` and `buff`.
  pub record Does (prints : List Printed) (size : ℕ) (feed_s : Option j.Item) (buff : List ℕ)
      (job : Job j.Item) (outcome : Outcome (Job j.Item)) : Type 0 where
    pub after : Job j.Item
    pub ends : outcome ≡ ended after
    pub bytes : List ℕ
    pub shows : Shows prints bytes
    pub size_of : length bytes ≡ size
    pub sent : after.printer.transfer ≡ write_all job.printer.transfer bytes
    pub fed : after.feed_s ≡ feed_s
    pub buffered : after.buff ≡ buff

  pub Does-nothing : (job : Job j.Item) → Does [] 0 job.feed_s job.buff job (ended job)
  unfolding write_all
  Does-nothing job = record {
    after = job;
    ends = refl;
    bytes = [];
    shows = λ rest. refl;
    size_of = refl;
    sent = refl;
    fed = refl;
    buffered = refl;
  }

  pub Does-followed_by :
      (ps qs : List Printed) (m n : ℕ) (f g : Option j.Item) (b c : List ℕ) (job : Job j.Item)
      (first : Outcome (Job j.Item)) (next : Job j.Item → Outcome (Job j.Item))
      → Does ps m f b job first
      → ((after : Job j.Item)
          → after.feed_s ≡ f
          → after.buff ≡ b
          → Does qs n g c after (next after))
      → Does (ps ++ qs) (m + n) g c job (followed_by first next)
  Does-followed_by ps qs m n f g b c job first next d more =
      let e = more d.after d.fed d.buffered in
      record {
        after = e.after;
        ends = rw d.ends e.ends;
        bytes = d.bytes ++ e.bytes;
        shows = Shows-append ps qs d.bytes e.bytes d.shows e.shows;
        size_of = omega (arith, length-append {0} d.bytes e.bytes, d.size_of, e.size_of);
        sent =
            e.sent
            ∙ ap (λ (t : Transfer). write_all t e.bytes) d.sent
            ∙ sym (write_all-append job.printer.transfer d.bytes e.bytes);
        fed = e.fed;
        buffered = e.buffered;
      }

  -- The parts of an item, each of which may be absent. A text has no ESC, GS and newline, and leaves
  -- the feed of its item.
  pub data TextPart (item : j.Item) (feed_s : Option j.Item)
      : Option j.Item → List Printed → ℕ → Type 0 where
    no_text : j.has item text_key ≡ false → TextPart item feed_s feed_s [] 0
    a_text :
        (text : List ℕ)
        → j.has item text_key ≡ true
        → string_of j (some item) text_key ≡ some text
        → IsPlain text
        → TextPart item feed_s (j.get item feed_key) (line text ∷ []) (length text + 22)

  -- An image of `w` by `h` dots, whose data are there. `buff` is the buffer before and after.
  pub data ImagePart (item : j.Item) (buff : List ℕ) : List ℕ → List Printed → ℕ → Type 0 where
    no_image : j.has item image_key ≡ false → ImagePart item buff buff [] 0
    an_image :
        (source : List ℕ) (w h : ℕ)
        → j.has item image_key ≡ true
        → string_of j (some item) image_key ≡ some source
        → or_default (pos 248) (number_of j (some item) width_key) ≡ pos w
        → or_default (pos 248) (number_of j (some item) height_key) ≡ pos h
        → w < 2048
        → h < 65536
        → w / 8 * h ≤ length (base64_decode source buff)
        → ImagePart item buff
            (base64_decode source buff)
            (raster (w / 8) h (take (w / 8 * h) (base64_decode source buff)) ∷ line [] ∷ [])
            (w / 8 * h + 15)

  -- A barcode of at most 255 bytes, and of a type that ends with a terminator.
  pub data BarcodePart (item : j.Item) : List Printed → ℕ → Type 0 where
    no_barcode : j.has item barcode_key ≡ false → BarcodePart item [] 0
    a_barcode :
        (text : List ℕ) (type : ℕ)
        → j.has item barcode_key ≡ true
        → string_of j (some item) barcode_key ≡ some text
        → u8_of_int (or_default (pos 4) (number_of j (some item) type_key)) ≡ type
        → type < 65
        → IsText text
        → length text ≤ 255
        → length text < fuel
        → BarcodePart item (line [] ∷ barcode type text ∷ []) (length text + 14)

  pub text_item-Does :
      (item : j.Item) (job : Job j.Item) (f : Option j.Item) (ps : List Printed) (n : ℕ)
      → TextPart item job.feed_s f ps n
      → Does ps n f job.buff job (text_item j base64_decode fuel item job)
  unfolding text_item
  text_item-Does item job _ _ _ (no_text absent) = rw absent (Does-nothing job)
  text_item-Does item job _ _ _ (a_text text present is_text plain) =
      let alignment = alignment_of j base64_decode fuel item in
      let spacing = line_spacing_of j base64_decode fuel item in
      let (modes, three, sent) = print_text-transfer job.printer text _ _ _ _ _ _ in
      record {
        after = printed_text j base64_decode fuel item job text;
        ends = rw (present, is_text) refl;
        bytes = modes ++ (mode_command _ ++ text_tail _ alignment spacing text);
        shows = text-Shows text modes _ _ alignment spacing three plain;
        size_of = length-line text modes _ _ alignment spacing three;
        sent = sent;
        fed = refl;
        buffered = refl;
      }

  pub image_item-Does :
      (item : j.Item) (job : Job j.Item) (buff : List ℕ) (ps : List Printed) (n : ℕ)
      → ImagePart item job.buff buff ps n
      → Does ps n job.feed_s buff job (image_item j base64_decode fuel item job)
  unfolding image_item
  image_item-Does item job _ _ _ (no_image absent) = rw absent (Does-nothing job)
  image_item-Does item job _ _ _
        (an_image source w h present is_text width height narrow low enough) =
      let alignment : ℕ =
        char_at
          (or_default (b'c' ∷ b'e' ∷ b'n' ∷ b't' ∷ b'e' ∷ b'r' ∷ [])
            (string_of j (some item) alignment_key))
          0 in
      rw (present, is_text, width, height)
        record {
          after = _;
          ends = refl;
          bytes = image_bytes w h alignment (base64_decode source job.buff);
          shows = image-Shows w h alignment (base64_decode source job.buff) enough;
          size_of = length-image_bytes w h alignment (base64_decode source job.buff) enough;
          sent =
              print_image-transfer job.printer w h alignment (base64_decode source job.buff) narrow
                low enough;
          fed = refl;
          buffered = refl;
        }

  pub barcode_item-Does :
      (item : j.Item) (job : Job j.Item) (ps : List Printed) (n : ℕ)
      → BarcodePart item ps n
      → Does ps n job.feed_s job.buff job (barcode_item j base64_decode fuel item job)
  unfolding barcode_item set_barcode_height write_all
  barcode_item-Does item job _ _ (no_barcode absent) = rw absent (Does-nothing job)
  barcode_item-Does item job _ _ (a_barcode text type present is_text typed old full short enough) =
      rw (present, is_text, typed)
        (let asked = u8_of_int (or_default (pos 200) (number_of j (some item) height_key)) in
          let height = if ltb asked 1 then 1 else asked in
          rw ((print_barcode_lem fuel _ text type full).0 short enough) record {
            after = _;
            ends = refl;
            bytes = 29 ∷ b'h' ∷ height ∷ barcode_bytes text type;
            shows = barcode-Shows height type text old full;
            size_of = omega (arith, length-append {0} text (0 ∷ []));
            sent = refl;
            fed = refl;
            buffered = refl;
          })

-- ===== src/Printer/Decode.antt =====
-- main/printer/ESC.c, escHandleCommand: a whole job, and what a printer prints from its bytes.
use gateway_esp.Prelude.{
  ℕ, zero, suc, ◌+◌, ◌≤◌, ◌≡◌, refl, sym, ap, ◌∙◌, inl, inr, Bool-cases, false, List, [], ◌∷◌, ◌++◌,
  Option, none, some, length, length-append, length-replicate, replicate, ℤ, pos, u8_of_int,
  if◌then◌else◌, ◌==ℤ◌, arith,
}
use mathlib.Core.List.{append-nil}
use gateway_esp.Devices.Json.{Cjson, data_key}
use gateway_esp.Printer.Buffer.{
  Transfer, write_byte, write_all, written, write_all-append, write_all-written, index-write_all,
}
use gateway_esp.Printer.Commands.{Printer, Mode, newline, feed, partial_cut}
use gateway_esp.Printer.Job.{
  ended, Job, job_items, text_item, image_item, barcode_item, last_feed, number?, run_job,
  fresh_transfer,
}
use gateway_esp.Printer.Receipt.{fresh_transfer_lem}
use gateway_esp.Printer.Reader.{Printed, line, at_text, printed}
use gateway_esp.Printer.Shows.{Shows, Shows-append, newlines-Shows, cut-Shows}
use gateway_esp.Printer.Ticket.{
  Does, Does-nothing, Does-followed_by, TextPart, ImagePart, BarcodePart, text_item-Does,
  image_item-Does, barcode_item-Does,
}

-- The empty lines after the items: five without a number, and the number modulo 256 with one.
abbrev pub feed_count : Option ℤ → ℕ
feed_count none = 5
feed_count (some n) = if n ==ℤ pos 0 then 0 else u8_of_int n

whole-printed :
    (prints : List Printed) (bytes : List ℕ)
    → Shows prints bytes
    → printed at_text [] bytes ≡ prints
whole-printed prints bytes s =
    ap (λ l. printed at_text [] l) (sym (append-nil bytes)) ∙ s [] ∙ append-nil prints

feed-transfer :
    (n : ℕ) (p : Printer) → (feed p n).transfer ≡ write_all p.transfer (replicate n newline)
unfolding feed write_all
feed-transfer zero p = refl
feed-transfer (suc n) p = feed-transfer n (record p { transfer = write_byte p.transfer newline })

module _ (j : Cjson) (base64_decode : List ℕ → List ℕ → List ℕ) (fuel : ℕ) where
  -- What the items of a job have printed, in their order, and the bytes that they take, with `feed_s`
  -- and `buff` before and after.
  pub data Ticket
      : List j.Item
        → Option j.Item
        → List ℕ
        → Option j.Item
        → List ℕ
        → List Printed
        → ℕ
        → Type 0 where
    no_items : (f : Option j.Item) (b : List ℕ) → Ticket [] f b f b [] 0
    one_more :
        (item : j.Item) (items : List j.Item) (f f₁ f₂ : Option j.Item) (b b₁ b₂ : List ℕ)
        (ps qs rs ss : List Printed) (k l m n : ℕ)
        → TextPart j base64_decode fuel item f f₁ ps k
        → ImagePart j base64_decode fuel item b b₁ qs l
        → BarcodePart j base64_decode fuel item rs m
        → Ticket items f₁ b₁ f₂ b₂ ss n
        → Ticket (item ∷ items) f b f₂ b₂ (ps ++ (qs ++ (rs ++ ss))) (k + (l + (m + n)))

  text-Does :
      (item : j.Item) (job : Job j.Item) (f f' : Option j.Item) (b : List ℕ) (ps : List Printed)
      (n : ℕ)
      → job.feed_s ≡ f
      → job.buff ≡ b
      → TextPart j base64_decode fuel item f f' ps n
      → Does j base64_decode fuel ps n f' b job (text_item j base64_decode fuel item job)
  text-Does item job f f' b ps n fed buffered t =
      rw (← buffered) (text_item-Does j base64_decode fuel item job f' ps n (rw fed t))

  image-Does :
      (item : j.Item) (job : Job j.Item) (f : Option j.Item) (b b' : List ℕ) (ps : List Printed)
      (n : ℕ)
      → job.feed_s ≡ f
      → job.buff ≡ b
      → ImagePart j base64_decode fuel item b b' ps n
      → Does j base64_decode fuel ps n f b' job (image_item j base64_decode fuel item job)
  image-Does item job f b b' ps n fed buffered i =
      rw (← fed) (image_item-Does j base64_decode fuel item job b' ps n (rw buffered i))

  barcode-Does :
      (item : j.Item) (job : Job j.Item) (f : Option j.Item) (b : List ℕ) (ps : List Printed)
      (n : ℕ)
      → job.feed_s ≡ f
      → job.buff ≡ b
      → BarcodePart j base64_decode fuel item ps n
      → Does j base64_decode fuel ps n f b job (barcode_item j base64_decode fuel item job)
  barcode-Does item job f b ps n fed buffered c =
      rw (← fed, ← buffered) (barcode_item-Does j base64_decode fuel item job ps n c)

  job_items-Does :
      (items : List j.Item) (f f' : Option j.Item) (b b' : List ℕ) (ps : List Printed) (n : ℕ)
      (job : Job j.Item)
      → Ticket items f b f' b' ps n
      → job.feed_s ≡ f
      → job.buff ≡ b
      → Does j base64_decode fuel ps n f' b' job (job_items j base64_decode fuel items job)
  unfolding job_items
  job_items-Does _ _ _ _ _ _ _ job (no_items f b) fed buffered =
      rw (← fed, ← buffered) (Does-nothing j base64_decode fuel job)
  job_items-Does _ _ _ _ _ _ _ job
        (one_more item items f f₁ f₂ b b₁ b₂ ps qs rs ss k l m n t i c more) fed buffered =
      Does-followed_by j base64_decode fuel ps (qs ++ (rs ++ ss)) k (l + (m + n)) f₁ f₂ b b₂ job
        (text_item j base64_decode fuel item job) _ (text-Does item job f f₁ b ps k fed buffered t)
        (λ job₁ fed₁ buffered₁.
          Does-followed_by j base64_decode fuel qs (rs ++ ss) l (m + n) f₁ f₂ b₁ b₂ job₁
            (image_item j base64_decode fuel item job₁) _
            (image-Does item job₁ f₁ b b₁ qs l fed₁ buffered₁ i)
            (λ job₂ fed₂ buffered₂.
              Does-followed_by j base64_decode fuel rs ss m n f₁ f₂ b₁ b₂ job₂
                (barcode_item j base64_decode fuel item job₂) _
                (barcode-Does item job₂ f₁ b₁ rs m fed₂ buffered₂ c)
                (λ job₃ fed₃ buffered₃.
                  job_items-Does items f₁ f₂ b₁ b₂ ss n job₃ more fed₃ buffered₃)))

  last_feed-eq :
      (feed_s : Option ℤ) (p : Printer)
      → last_feed j base64_decode fuel feed_s p ≡ feed p (feed_count feed_s)
  unfolding feed
  last_feed-eq none p = refl
  last_feed-eq (some n) p = elim (Bool-cases (n ==ℤ pos 0)) [
    | inl none_asked ↦ rw none_asked refl
    | inr some_asked ↦ rw some_asked refl
  ]

  -- The empty lines and the cut.
  last-Shows :
      (feed_s : Option ℤ) (p : Printer)
      → (bytes : List ℕ) × ((partial_cut (last_feed j base64_decode fuel feed_s p)).transfer
          ≡ write_all p.transfer bytes)
        × Shows (replicate (feed_count feed_s) (line [])) bytes
        × (length bytes ≡ feed_count feed_s + 2)
  unfolding partial_cut write_all
  last-Shows feed_s p =
      let count = feed_count feed_s in
      let lines = replicate count newline in
      (
        lines ++ (27 ∷ b'm' ∷ []),
        rw (last_feed-eq feed_s p, feed-transfer count p)
            (sym (write_all-append p.transfer lines (27 ∷ b'm' ∷ []))),
        λ rest.
            Shows-append (replicate count (line [])) [] lines (27 ∷ b'm' ∷ [])
              (newlines-Shows count) cut-Shows rest
            ∙ ap (λ l. l ++ printed at_text [] rest) (append-nil (replicate count (line []))),
        omega (
          arith,
          length-append {0} lines (27 ∷ b'm' ∷ []),
          length-replicate {A = ℕ} count newline,
        ),
      )

  abbrev start : Mode → List ℕ → Job j.Item
  start mode buff = record {
    printer = record { transfer = fresh_transfer; mode = mode };
    buff = buff;
    feed_s = none;
  }

  -- A job of texts without newline, ESC and GS, of images less than 2048 dots wide and 65536 high whose
  -- decoded data are all there, and of barcodes of a type below 65 and of at most 255 bytes without 0,
  -- which the rounds given to the loop of a barcode are enough for, all given as strings: if the items, with the empty lines
  -- and the cut, fit into the transfer, the job ends, and from its bytes a printer prints what the items
  -- ask for, in their order: each text on a line of its own, each image with the rows of data that it
  -- announces and an empty line, each barcode after an empty line; and then as many empty lines as the
  -- last text item asks for, modulo 256, or five. Nothing is accessed outside an array.
  pub run_job-printed :
      (message item : j.Item) (items : List j.Item) (mode : Mode) (buff buff' : List ℕ)
      (feed_s : Option j.Item) (prints : List Printed) (size : ℕ)
      → j.get message data_key ≡ some item
      → j.items item ≡ items
      → Ticket items none buff feed_s buff' prints size
      → let count = feed_count (number? j base64_decode fuel feed_s) in
        size + (count + 2) ≤ 20480
        → (job : Job j.Item) × (run_job j base64_decode fuel (some message) fresh_transfer mode buff
            ≡ ended job)
          × (printed at_text [] (written job.printer.transfer)
              ≡ prints ++ replicate count (line []))
          × (job.printer.transfer.transfer_index ≡ size + (count + 2))
          × (job.printer.transfer.fault ≡ false)
  unfolding run_job
  run_job-printed message item items mode buff buff' feed_s prints size at array_of ticket fits =
      let d =
        job_items-Does items none feed_s buff buff' prints size (start mode buff) ticket refl
          refl in
      let (last, cut, shown, length_of) =
        last-Shows (number? j base64_decode fuel feed_s) d.after.printer in
      let (empty, starts, room, clean) = fresh_transfer_lem in
      let bytes = d.bytes ++ last in
      let sent : (partial_cut (
            last_feed j base64_decode fuel (number? j base64_decode fuel feed_s)
              d.after.printer)).transfer
          ≡ write_all fresh_transfer bytes =
        cut
        ∙ ap (λ (t : Transfer). write_all t last) d.sent
        ∙ sym (write_all-append fresh_transfer d.bytes last) in
      let size_of : length bytes ≡ size + (feed_count (number? j base64_decode fuel feed_s) + 2) =
        omega (arith, length-append {0} d.bytes last, d.size_of, length_of) in
      let (content, kept) = write_all-written fresh_transfer bytes (omega arith) in
      let lines = replicate (feed_count (number? j base64_decode fuel feed_s)) (line []) in
      (
        record d.after {
          printer = partial_cut (
              last_feed j base64_decode fuel (number? j base64_decode fuel feed_s) d.after.printer);
        },
        rw (at, array_of, d.ends, d.fed) refl,
        ap (λ l. printed at_text [] l) (ap written sent ∙ content ∙ ap (λ l. l ++ bytes) empty)
            ∙ whole-printed (prints ++ lines) bytes
                (Shows-append prints lines d.bytes last d.shows shown),
        omega (
          arith,
          ap (λ (u : Transfer). u.transfer_index) sent,
          index-write_all fresh_transfer bytes,
        ),
        ap (λ (u : Transfer). u.fault) sent ∙ kept ∙ clean,
      )

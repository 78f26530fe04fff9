-- ===== src/Runner/Loaded.antt =====
-- runner.py and core/topo.py: a path of a YAML topology, as it is converted and as it is read.
use minitopo.Base.{ℕ, Char, String, ◌≡◌, refl, ap, ◌∙◌, false, [], ◌∷◌, some}
use minitopo.Base.Int.{ℤ, pos}
use minitopo.Base.Dict.{Dict, lookup}
use minitopo.Errors.{ok}
use minitopo.Floats.{Floats}
use minitopo.Text.{◌<>◌, concat, has}
use minitopo.Text.Split.{split, split-append, split-free, append-empty}
use minitopo.Text.Number.{read_int, show}
use minitopo.TopoParameter.{parse_link_id_and_type, parse_link_characteristics, fields_of_words}
use minitopo.TopoParameter.Keys.{link_key, parse-link_key}
use minitopo.Runner.{path_entry, path_key, or_else}

abbrev comma : Char
comma = Prim.Native.Char.char 44 tt

split-concat :
    (d q b : String)
    → has b',' d ≡ false
    → has b',' q ≡ false
    → has b',' b ≡ false
    → split b',' (concat (d ∷ "," ∷ q ∷ "," ∷ b ∷ [])) ≡ d ∷ q ∷ b ∷ []
unfolding concat ◌<>◌
split-concat d q b hd hq hb =
    split-append b',' d comma (q <> String.◌∷◌ comma (b <> "")) refl hd
    ∙ ap (λ ws. d ∷ ws)
        (split-append b',' q comma (b <> "") refl hq
          ∙ ap (λ ws. q ∷ ws) (ap (split b',') (append-empty b) ∙ split-free b',' b hb))

-- The key of a path that gives its type and identifier is that of a link.
path_key-link_key :
    (idx : ℕ) (p : Dict String) (link_type : String) (id : ℤ)
    → lookup "link_type" p ≡ some link_type
    → lookup "id" p ≡ some (show id)
    → path_key idx p ≡ link_key "path" link_type id
unfolding path_key concat ◌<>◌
path_key-link_key idx p link_type id t i =
    rw t (rw i (ap (λ s. "path_" <> link_type <> "_" <> s) (append-empty (show id))))

module _ (fl : Floats) where
  open fl use {F, read, of_int}

  parse-concat :
      (d q b : String) (delay bandwidth : F) (queue_size : ℤ)
      → has b',' d ≡ false
      → has b',' q ≡ false
      → has b',' b ≡ false
      → read d ≡ ok delay
      → read b ≡ ok bandwidth
      → read_int q ≡ some queue_size
      → parse_link_characteristics fl (concat (d ∷ "," ∷ q ∷ "," ∷ b ∷ []))
        ≡ ok (record {
          delay = delay;
          bandwidth = bandwidth;
          queue_size = queue_size;
          loss_perc = of_int (pos 0);
          is_backup = pos 0;
        })
  unfolding parse_link_characteristics fields_of_words
  parse-concat d q b delay bandwidth queue_size hd hq hb rd rb rq =
      rw (split-concat d q b hd hq hb) (rw rd (rw rb (rw rq refl)))

  -- A path of a YAML topology that gives a type without `_`, an identifier, and a delay, a bandwidth
  -- and a queue (or no queue, for the default of 100) whose texts have no comma and are read as
  -- numbers: the key of its line is read back as this type and identifier, and its value as these
  -- numbers, without loss and not as a backup.
  pub parse-path_entry :
      (idx : ℕ) (p : Dict String) (link_type d b : String) (id : ℤ) (delay bandwidth : F)
      (queue_size : ℤ)
      → lookup "link_type" p ≡ some link_type
      → has b'_' link_type ≡ false
      → lookup "id" p ≡ some (show id)
      → lookup "delay_ms" p ≡ some d
      → has b',' d ≡ false
      → read d ≡ ok delay
      → lookup "bw_mbit" p ≡ some b
      → has b',' b ≡ false
      → read b ≡ ok bandwidth
      → has b',' (or_else "100" (lookup "queue_pkts" p)) ≡ false
      → read_int (or_else "100" (lookup "queue_pkts" p)) ≡ some queue_size
      → (e : String × String) × (path_entry idx p ≡ ok e)
        × (parse_link_id_and_type e.0 ≡ ok (link_type, id))
        × (parse_link_characteristics fl e.1
            ≡ ok (record {
              delay = delay;
              bandwidth = bandwidth;
              queue_size = queue_size;
              loss_perc = of_int (pos 0);
              is_backup = pos 0;
            }))
  unfolding path_entry
  parse-path_entry idx p link_type d b id delay bandwidth queue_size has_type free has_id has_delay
        hd rd has_bw hb rb hq rq =
      let queue = or_else "100" (lookup "queue_pkts" p) in
      (
        (path_key idx p, concat (d ∷ "," ∷ queue ∷ "," ∷ b ∷ [])),
        rw has_delay (rw has_bw refl),
        ap parse_link_id_and_type (path_key-link_key idx p link_type id has_type has_id)
            ∙ (parse-link_key link_type id free).0,
        parse-concat d queue b delay bandwidth queue_size hd hq hb rd rb rq,
      )

-- ===== src/App/Pipeline.antt =====
-- A POST and a GET behind it on one connection.
use obsidio.Prelude.{
  ℕ, suc, ◌≡◌, refl, sym, ap, ◌∙◌, true, false, List, [], ◌∷◌, ◌++◌, some, arith, concat,
  append-nil,
}
use obsidio.Prelude.Env.{Bytes, codes}
use obsidio.Prelude.Text.{equal, equal_self, is_empty, after_prefix}
use obsidio.Governor.{count_response}
use obsidio.Prices.{
  Codec, Process, Response, store_price, build_price_resp, append_wal, accept_price,
  handle_price_post, handle_price_get,
}
use obsidio.Prices.Query.{key, has_rare, symbol_param}
use obsidio.Raw.{Request}
use obsidio.Raw.Stream.{cut_blank}
use obsidio.Raw.Write.{write_response}
use obsidio.Raw.Serve.{dispatch, answer, serve_raw_conn, serve_stream}
use obsidio.Raw.Serve.Refines.{serve_raw_conn-serve_stream}
use obsidio.Raw.Serve.Pipeline.{IsSent, print_request, serve_raw_conn-print_request}
use obsidio.App.{World, Wire, app, handle_price}

symbol_param_plain :
    (query_get : Bytes → Bytes) (s : Bytes)
    → has_rare s ≡ false
    → symbol_param query_get (key ++ s) ≡ s
unfolding symbol_param after_prefix
symbol_param_plain query_get s h = rw h refl

module _ (J : Codec) (W : World J) where
  open J use {Price, decode}
  open W use {disk, status_text, write}

  abbrev pub TakesAll : Type 0
  TakesAll = (out b : Bytes) → write out b ≡ (out ++ b, true)

  abbrev price_response : Bytes → Price → Response
  price_response s p = record { code = 200; body = build_price_resp J s p }

  -- The wire after a response on a connection that stays open.
  abbrev pub responded : Wire J W → Process J → Response → Wire J W
  responded w x r = record {
    process = x;
    out = w.out ++ write_response status_text false r.code r.body;
  }

  abbrev posted : Bytes → Price → Process J → Process J
  posted s p x = record {
    tables = store_price J s p x.tables;
    wal = (append_wal J (disk x) s p x.wal).0;
    counters = count_response 200 x.counters;
  }

  answer-sent :
      (w : Wire J W) (req : Request) (body : Bytes) (x : Process J) (r : Response)
      → TakesAll
      → req.framing.keep_alive ≡ true
      → equal req.path (codes "/price") ≡ true
      → handle_price J W w.process req body ≡ (x, r)
      → answer (app J W) w req body ≡ (responded w x r, true)
  unfolding answer dispatch
  answer-sent w req body x r all alive path handled = rw (path, handled, alive, all) refl

  post-handled :
      (req : Request) (body s : Bytes) (p : Price) (x : Process J)
      → equal req.method (codes "POST") ≡ true
      → decode body ≡ some (s, some p)
      → is_empty s ≡ false
      → (append_wal J (disk x) s p x.wal).1 ≡ true
      → handle_price J W x req body ≡ (posted s p x, price_response s p)
  unfolding handle_price handle_price_post accept_price
  post-handled req body s p x method decoded named durable =
      rw (method, decoded, named, durable) refl

  get-handled :
      (req : Request) (s : Bytes) (p : Price) (x : Process J)
      → equal req.method (codes "POST") ≡ false
      → req.query ≡ key ++ s
      → has_rare s ≡ false
      → handle_price J W (posted s p x) req [] ≡ (
        record (posted s p x) { counters = count_response 200 (posted s p x).counters },
        price_response s p,
      )
  unfolding handle_price handle_price_get store_price
  get-handled req s p x method query plain =
      rw
        (
          method,
          query,
          symbol_param_plain (World.query_get W (codes "symbol")) s plain,
          equal_self s,
        )
        refl

  -- A POST of the price `p` of `s`, as the decoder reads it, and a GET of `s`, both on a connection
  -- that stays open.
  pub record PostsAndGets (s : Bytes) (p : Price) (post get : Request) (body : Bytes) : Type 0 where
    pub post_path : equal post.path (codes "/price") ≡ true
    pub post_method : equal post.method (codes "POST") ≡ true
    pub post_open : post.framing.keep_alive ≡ true
    pub decoded : decode body ≡ some (s, some p)
    pub named : is_empty s ≡ false
    pub get_path : equal get.path (codes "/price") ≡ true
    pub get_method : equal get.method (codes "POST") ≡ false
    pub get_open : get.framing.keep_alive ≡ true
    pub query : get.query ≡ key ++ s
    pub plain : has_rare s ≡ false

  serve_nothing : (fuel : ℕ) (w : Wire J W) → serve_stream (app J W) (suc fuel) w [] ≡ some w
  unfolding serve_stream cut_blank
  serve_nothing fuel w = refl

  module _ (s : Bytes) (p : Price) (post get : Request) (body : Bytes) (m t v m' t' v' : Bytes)
      (lines lines' : List Bytes) (sent : IsSent m t v lines post body)
      (sent' : IsSent m' t' v' lines' get []) (r : PostsAndGets s p post get body)
      (all : TakesAll) where
    abbrev after_post : Wire J W → Wire J W
    after_post w = responded w (posted s p w.process) (price_response s p)

    abbrev pub after_get : Wire J W → Wire J W
    after_get w =
        let w' = after_post w in
        responded w' (record w'.process { counters = count_response 200 w'.process.counters })
          (price_response s p)

    get-served :
        (w : Wire J W)
        → serve_stream (app J W) 2 (after_post w) (print_request m' t' v' lines' [])
          ≡ some (after_get w)
    get-served w =
        let stream = print_request m' t' v' lines' [] in
        ap (serve_stream (app J W) 2 (after_post w)) (sym (append-nil stream))
        ∙ sym
            (serve_raw_conn-serve_stream (app J W) 2 (after_post w) [] (stream ∷ []) (omega arith))
        ∙ serve_raw_conn-print_request (app J W) 1 (after_post w) m' t' v' lines' get [] []
            (stream ∷ []) sent' (append-nil stream)
        ∙ rw
            (answer-sent (after_post w) get [] _ _ all r.get_open r.get_path
              (get-handled get s p w.process r.get_method r.query r.plain))
            (serve_nothing 0 (after_get w))

    -- A POST of a plain symbol, as the decoder reads it, and a GET of that symbol behind it, each
    -- as a client prints it, on a connection that takes all that is written, and with an append
    -- that succeeds or no log, are both answered 200 with the body built from the symbol and the
    -- price, in whatever pieces they come; the tables and the log, if there is one, get the entry,
    -- two responses are counted, and the connection then closes.
    pub post-get :
        (w : Wire J W) (pieces : List Bytes)
        → (append_wal J (disk w.process) s p w.process.wal).1 ≡ true
        → concat pieces ≡ print_request m t v lines (body ++ print_request m' t' v' lines' [])
        → serve_raw_conn (app J W) 3 w [] pieces
          ≡ some (record {
            process = record {
              tables = store_price J s p w.process.tables;
              wal = (append_wal J (disk w.process) s p w.process.wal).0;
              counters = count_response 200 (count_response 200 w.process.counters);
            };
            out =
                (w.out ++ write_response status_text false 200 (build_price_resp J s p))
                ++ write_response status_text false 200 (build_price_resp J s p);
          })
    post-get w pieces durable whole =
        serve_raw_conn-print_request (app J W) 2 w m t v lines post body
          (print_request m' t' v' lines' []) pieces sent whole
        ∙ rw
            (answer-sent w post body _ _ all r.post_open r.post_path
              (post-handled post body s p w.process r.post_method r.decoded r.named durable))
            (get-served w)

-- ===== src/Server/Http/Counts.antt =====
-- What the handlers of server/http.go charge to a key.
use saka.Base.{
  ℕ, ◌≡◌, ◌≢◌, refl, inl, inr, String, Option, none, some, is_empty, str_eq, eq_iff, str_eq-ne, get,
  get-put, Option-cases, Bool-cases, arith, ℤ, pos, le_zero, Bool, true, false, not, ◌⊎◌,
}
use saka.Strings.{trim_space}
use saka.Types.{Outcome-cases, Outcome, ok, err, Results, Error}
use saka.Server.{Request}
use saka.Server.Usage.{UsageStats, KeyUsage, add_search, add_4xx, add_5xx, record_usage}
use saka.Server.Http.{
  Site, Handled, count_use, results_wanted, write_results, answer_search, handle_search, or_default,
  query_of,
}

-- The counters of a key, where it has some.
abbrev pub seen : Option UsageStats → String → Option KeyUsage
seen none key = none
seen (some u) key = get u key

count_use-seen :
    (u : Option UsageStats) (key : String) (field : KeyUsage → KeyUsage) (ku : KeyUsage)
    → key ≢ ""
    → seen u key ≡ some ku
    → seen (count_use u key field) key ≡ some (field ku)
unfolding count_use record_usage
count_use-seen none key field ku full e = absurd (ground arith)
count_use-seen (some u) key field ku full e =
    ground (arith, eq_iff key "", get-put u key key (field ku), eq_iff key key)

pub count_use-others :
    (u : Option UsageStats) (key other : String) (field : KeyUsage → KeyUsage)
    → other ≢ key
    → seen (count_use u key field) other ≡ seen u other
unfolding count_use record_usage
count_use-others none key other field apart = refl
count_use-others (some u) key other field apart = elim (Option-cases (get u key)) [
  | inl e ↦ ground arith
  | inr (ku, e) ↦ ground (arith, eq_iff key other, get-put u key other (field ku))
]

-- The formats that a search may ask for.
abbrev pub IsFormat : String → Type 0
IsFormat s = (s ≡ "") ⊎ (s ≡ "json") ⊎ (s ≡ "markdown")

markdown-IsFormat : (s : String) → str_eq (or_default "json" s) "markdown" ≡ true → IsFormat s
markdown-IsFormat s h = elim (Bool-cases (is_empty s)) [
  | inl blank ↦ inl ((eq_iff s "").0 blank)
  | inr given ↦ inr (inr ((eq_iff s "markdown").0 (rw (given) at h)))
]

json-IsFormat : (s : String) → str_eq (or_default "json" s) "json" ≡ true → IsFormat s
json-IsFormat s h = elim (Bool-cases (is_empty s)) [
  | inl blank ↦ inl ((eq_iff s "").0 blank)
  | inr given ↦ inr (inl ((eq_iff s "json").0 (rw (given) at h)))
]

no-IsFormat :
    (s : String)
    → str_eq (or_default "json" s) "markdown" ≡ false
    → str_eq (or_default "json" s) "json" ≡ false
    → ¬ IsFormat s
no-IsFormat s h k (inl e) = ground (arith, eq_iff "json" "json", rw e at k)
no-IsFormat s h k (inr (inl e)) = ground (arith, eq_iff "json" "json", rw e at k)
no-IsFormat s h k (inr (inr e)) = ground (arith, eq_iff "markdown" "markdown", rw e at h)

module _ (site : Site) (r : Request) where
  -- The number of results that a request asks for: 10 where it gives none.
  abbrev pub IsCount : ℤ → Type 0
  IsCount n =
      ((r.param "n" ≡ "") × (n ≡ pos 10))
      ⊎ ((r.param "n" ≢ "") × (site.atoi (r.param "n") ≡ some n) × (le_zero n ≡ false))

  -- It gives no number, or one below 1.
  abbrev pub IsBadCount : Type 0
  IsBadCount =
      (r.param "n" ≢ "")
      × ((site.atoi (r.param "n") ≡ none)
          ⊎ ((n : ℤ) × (site.atoi (r.param "n") ≡ some n) × (le_zero n ≡ true)))

  abbrev pub has_text : Bool
  has_text = not (is_empty (trim_space (r.param "q")))

  -- A good request for `n` results, and what the engine answers it.
  abbrev pub IsAnswered : Outcome Results → Type 0
  IsAnswered o =
      (n : ℤ) × IsCount n
      × (site.engine.search (record {
        text = trim_space (r.param "q");
        max_results = n;
        region = "";
        safe_search = false;
        site = "";
        vertical = r.param "vertical";
      })
          ≡ o)

  -- How a search is charged, and the status of its reply.
  pub data IsSearchCharge (ku : KeyUsage) : ℕ → KeyUsage → Type 0 where
    found :
        (res : Results)
        → r.method ≡ "GET"
        → has_text ≡ true
        → IsAnswered (ok res)
        → IsFormat (r.param "format")
        → IsSearchCharge ku 200 (add_search ku)
    bad_format :
        (res : Results)
        → r.method ≡ "GET"
        → has_text ≡ true
        → IsAnswered (ok res)
        → ¬ IsFormat (r.param "format")
        → IsSearchCharge ku 400 (add_4xx (add_search ku))
    failed :
        (x : Error)
        → r.method ≡ "GET"
        → has_text ≡ true
        → IsAnswered (err x)
        → IsSearchCharge ku 502 (add_5xx ku)
    no_text : r.method ≡ "GET" → has_text ≡ false → IsSearchCharge ku 400 (add_4xx ku)
    bad_count : r.method ≡ "GET" → has_text ≡ true → IsBadCount → IsSearchCharge ku 400 (add_4xx ku)
    not_get : r.method ≢ "GET" → IsSearchCharge ku 405 ku

  abbrev pub IsChargedSearch : String → KeyUsage → Handled → Type 0
  IsChargedSearch key ku h =
      (ku' : KeyUsage) × (seen h.usage key ≡ some ku') × IsSearchCharge ku h.reply.status ku'

module _ (site : Site) (key : String) (usage : Option UsageStats) (ku : KeyUsage) (full : key ≢ "")
    (known : seen usage key ≡ some ku) where
  results_wanted-cases :
      (r : Request)
      → ((n : ℤ) × (results_wanted site key usage r ≡ some n) × IsCount site r n)
        ⊎ ((results_wanted site key usage r ≡ none) × IsBadCount site r)
  unfolding results_wanted
  results_wanted-cases r = elim (Bool-cases (is_empty (r.param "n"))) [
    | inl blank ↦
        inl (pos 10, rw (blank, results_wanted) refl, inl ((eq_iff (r.param "n") "").0 blank, refl))
    | inr given ↦
        let full_n : r.param "n" ≢ "" = str_eq-ne (r.param "n") "" given in
        elim (Option-cases (site.atoi (r.param "n"))) [
          | inl e ↦ inr (rw (given, results_wanted, e) refl, (full_n, inl e))
          | inr (n, e) ↦ elim (Bool-cases (le_zero n)) [
            | inl low ↦
                inr (
                  rw (given, results_wanted, e, results_wanted, low) refl,
                  (full_n, inr (n, e, low)),
                )
            | inr high ↦
                inl (
                  n,
                  rw (given, results_wanted, e, results_wanted, high) refl,
                  inr (full_n, e, high),
                )
          ]
        ]
  ]

  answer_search-Charged :
      (r : Request) (n : ℤ)
      → r.method ≡ "GET"
      → has_text site r ≡ true
      → IsCount site r n
      → IsChargedSearch site r key ku (answer_search site key usage r (trim_space (r.param "q")) n)
  unfolding answer_search write_results
  answer_search-Charged r n get_ texted count =
      let q = trim_space (r.param "q") in
      elim (Outcome-cases (site.engine.search (query_of site key usage r q n))) [
        | inr (x, e) ↦
            rw (e, answer_search)
              (
                add_5xx ku,
                count_use-seen usage key add_5xx ku full known,
                IsSearchCharge.failed x get_ texted (n, count, e),
              )
        | inl (res, e) ↦
            let once = count_use-seen usage key add_search ku full known in
            let answered : IsAnswered site r (ok res) = (n, count, e) in
            let format = or_default "json" (r.param "format") in
            elim (Bool-cases (str_eq format "markdown")) [
              | inl md ↦
                  rw (e, answer_search, md, write_results)
                    (
                      add_search ku,
                      once,
                      IsSearchCharge.found res get_ texted answered
                          (markdown-IsFormat (r.param "format") md),
                    )
              | inr no_md ↦ elim (Bool-cases (str_eq format "json")) [
                | inl json ↦
                    rw (e, answer_search, no_md, json, write_results)
                      (
                        add_search ku,
                        once,
                        IsSearchCharge.found res get_ texted answered
                            (json-IsFormat (r.param "format") json),
                      )
                | inr no_json ↦
                    rw (e, answer_search, no_md, no_json, write_results)
                      (
                        add_4xx (add_search ku),
                        count_use-seen (count_use usage key add_search) key add_4xx (add_search ku)
                            full once,
                        IsSearchCharge.bad_format res get_ texted answered
                            (no-IsFormat (r.param "format") no_md no_json),
                      )
              ]
            ]
      ]

  -- Each search is charged to its key: one that is answered once as a search, and a second time
  -- as a client error where its format is not known; one that the engine fails as a server error;
  -- one without a text or with a bad number of results as a client error; one that is not a GET
  -- not at all. The status of the reply is 200, 400, 502, 400 and 405 in turn. The key is not
  -- empty and has counters.
  pub handle_search-Charged :
      (r : Request) → IsChargedSearch site r key ku (handle_search site key usage r)
  unfolding handle_search
  handle_search-Charged r = elim (Bool-cases (str_eq r.method "GET")) [
    | inr post ↦
        rw (post, handle_search) (ku, known, IsSearchCharge.not_get (str_eq-ne r.method "GET" post))
    | inl get_ ↦
        let is_get = (eq_iff r.method "GET").0 get_ in
        elim (Bool-cases (is_empty (trim_space (r.param "q")))) [
          | inl empty ↦
              rw (get_, empty, handle_search)
                (
                  add_4xx ku,
                  count_use-seen usage key add_4xx ku full known,
                  IsSearchCharge.no_text is_get (rw empty refl),
                )
          | inr texted ↦ elim (results_wanted-cases r) [
            | inr (e, bad) ↦
                rw (get_, texted, handle_search, e)
                  (
                    add_4xx ku,
                    count_use-seen usage key add_4xx ku full known,
                    IsSearchCharge.bad_count is_get (rw texted refl) bad,
                  )
            | inl (n, e, count) ↦
                rw (get_, texted, handle_search, e)
                  (answer_search-Charged r n is_get (rw texted refl) count)
          ]
        ]
  ]

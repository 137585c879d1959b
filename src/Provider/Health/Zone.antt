-- ===== src/Provider/Health/Zone.antt =====
-- What the machine's time zone does to the test of a syncing node in src/py_near/providers.py.
use py_near.Base.{
  ℕ, ◌+◌, ◌≤◌, String, true, not, some, ok, ◌≡◌, refl, sym, ap, ◌∙◌, ◌↔◌, ltb, arith, ok-injective,
}
use py_near.Json.{Json, str, truthy}
use py_near.Python.{get_item}
use py_near.Utils.{timestamp}
use py_near.Provider.Network.{Network, replied}
use py_near.Provider.Health.{max_lag, is_available}

not-ltb_iff : (a b : ℕ) → (not (ltb a b) ≡ true) ↔ (b ≤ a)
not-ltb_iff a b = (λ h. ground arith, λ h. ground arith)

module _ (net : Network) where
  open net use {World, utcnow, loads, fromisoformat}

  -- At this moment local time is `west` behind UTC or `east` ahead of it, in microseconds.
  abbrev pub Zoned : ℕ → ℕ → World → Type 0
  Zoned west east w = timestamp net w + east ≡ utcnow w + west

  -- The text of a node that says it is syncing, with the time of its latest block.
  pub record Syncing (text : String) (last_block_ts : ℕ) : Type 0 where
    pub content : Json
    pub result : Json
    pub sync_info : Json
    pub syncing : Json
    pub time : String
    pub is_json : loads text ≡ some content
    pub has_result : get_item content "result" ≡ ok result
    pub has_sync_info : get_item result "sync_info" ≡ ok sync_info
    pub has_syncing : get_item sync_info "syncing" ≡ ok syncing
    pub is_syncing : truthy syncing ≡ true
    pub has_time : get_item sync_info "latest_block_time" ≡ ok (str time)
    pub is_time : fromisoformat time ≡ some last_block_ts

  available_by_time :
      (text : String) (ts : ℕ) (w : World)
      → Syncing text ts
      → is_available net (replied 200 text) w ≡ ok (not (ltb (ts + max_lag) (timestamp net w)))
  unfolding is_available
  available_by_time text ts w s =
      rw
        (
          s.is_json, s.has_result, s.has_sync_info, s.has_syncing, s.is_syncing, s.has_time,
          s.is_time,
        )
        refl

  -- A node that says it is syncing passes exactly if its latest block is at most a minute behind
  -- UTC, but for the zone: a minute less by what local time is behind UTC, and more by what it is
  -- ahead.
  pub is_available-Zoned :
      (text : String) (last_block_ts west east : ℕ) (w : World)
      → Zoned west east w
      → Syncing text last_block_ts
      → (is_available net (replied 200 text) w ≡ ok true)
        ↔ (utcnow w + west ≤ last_block_ts + max_lag + east)
  is_available-Zoned text ts west east w zoned s =
      let (below, above) = not-ltb_iff (ts + max_lag) (timestamp net w) in
      let same = available_by_time text ts w s in
      (
        (λ h. let le = below (ok-injective (sym same ∙ h)) in omega (arith, zoned, le)),
        (λ le. same ∙ ap ok (above (omega (arith, zoned, le)))),
      )

-- ===== src/Tests/Radio.antt =====
-- The theorems about the choice of an upstream network at a small scan.
use tollgate_module_basic_go.Dict.{lookup}
use tollgate_module_basic_go.Prelude.{
  ℕ, ◌*◌, ◌≡◌, refl, Bool, true, false, none, some, [], ◌∷◌, codes, arith, str_eq,
}
use tollgate_module_basic_go.Dict.{lookup}
use tollgate_module_basic_go.Prelude.Integers.{pos, negsuc}
use tollgate_module_basic_go.Prelude.Words.{minute, at_unix}
use tollgate_module_basic_go.Wireless.State.{
  StaSection, NetworkInfo, Candidate, UpstreamManager, is_in_cooldown, purge_blacklist,
  is_blacklisted, is_before,
}
use tollgate_module_basic_go.Wireless.Candidates.{
  Connector, offer_by_mode, find_candidates, known_offer, best_offer, candidate_of, section_name,
}
use tollgate_module_basic_go.Wireless.Candidates.Laws.{IsBest, IsEligible, find_candidates_lem}
use tollgate_module_basic_go.Wireless.Manager.{Reason, skipped, run_scan_cycle, should_switch}
use tollgate_module_basic_go.Wireless.Manager.Laws.{
  Scan, IsWorth, scan_once, scan_all, run_scan_cycle-IsWorth, scan_all_broken,
}

-- A network at -60 dBm that has a section, and an open TollGate at -50 dBm.
abbrev home : NetworkInfo
home = record {
  bssid = codes "b1";
  ssid = codes "home";
  signal = negsuc 59;
  encryption = codes "psk2";
  radio = codes "radio0";
}

abbrev toll_gate : NetworkInfo
toll_gate = record {
  bssid = codes "b2";
  ssid = codes "TollGate-1";
  signal = negsuc 49;
  encryption = codes "none";
  radio = codes "radio0";
}

abbrev home_section : StaSection
home_section = record { name = codes "sta1"; ssid = codes "home"; disabled = true }

-- A connector that finds the section, and one of which every switch answers this.
abbrev connector : Bool → Connector
connector ok = record {
  get_sta_sections = some (home_section ∷ []);
  find_or_create_sta = λ ssid radio. some (codes "sta2");
  switch_upstream = λ old new ssid. ok;
}

-- The defaults, after two failures in a row.
abbrev manager : UpstreamManager
manager = record {
  config = record {
    scan_cycles = 10;
    lost_threshold = 2;
    toll_gate_lost_threshold = 6;
    hysteresis_db = pos 12;
    signal_floor = negsuc 84;
    blacklist_ttl = 60 * minute;
    emergency_penalty = pos 20;
    max_consecutive_failures = 3;
    switch_cooldown = 10 * minute;
  };
  pause_until = none;
  blacklist = [];
  consecutive_fails = 2;
  cooldown_until = none;
  is_toll_gate_connection = false;
}

abbrev home_candidate : Candidate
home_candidate = record {
  bssid = codes "b1";
  signal = negsuc 59;
  radio = codes "radio0";
  iface_name = codes "sta1";
  ssid = codes "home";
}

find_candidates_lem_example :
    let out =
      find_candidates (connector true) (home ∷ toll_gate ∷ []) true true (at_unix 1000) manager in
    IsBest
      (offer_by_mode (connector true) (home ∷ toll_gate ∷ []) true true (at_unix 1000) manager)
      (home ∷ toll_gate ∷ [])
      out
    × ((k : Candidate)
        → out ≡ some k
        → IsEligible (some (home_section ∷ [])) true (at_unix 1000) manager k)
find_candidates_lem_example =
    find_candidates_lem (connector true) (home ∷ toll_gate ∷ []) true true (at_unix 1000) manager

-- The active upstream is at -80 dBm.
run_scan_cycle-IsWorth_example :
    (is_in_cooldown (at_unix 1000) manager ≡ false)
    × IsEligible
        (some (home_section ∷ []))
        false
        (at_unix 1000)
        (purge_blacklist (at_unix 1000) manager)
        home_candidate
    × IsWorth (codes "sta0") (negsuc 79) home_candidate manager
unfolding run_scan_cycle is_before find_candidates best_offer offer_by_mode known_offer section_name
    str_eq is_blacklisted lookup purge_blacklist should_switch candidate_of
run_scan_cycle-IsWorth_example =
    run_scan_cycle-IsWorth (connector true) (some (home ∷ toll_gate ∷ [])) (codes "sta0")
      (codes "old") (negsuc 79) Reason.scheduled false (at_unix 1000) manager home_candidate refl

abbrev scan_at : ℕ → Scan
scan_at t = record {
  connector = connector false;
  networks = some (home ∷ []);
  active_iface = [];
  active_ssid = [];
  signal = pos 0;
  reason = Reason.no_active_upstream;
  is_reseller = false;
  time = t;
}

-- A third failure, and two scans in the ten minutes after it.
scan_all_broken_example :
    let um' = (scan_once (scan_at (at_unix 1000)) manager).1 in
    scan_all (scan_at (at_unix 1030) ∷ scan_at (at_unix 1300) ∷ []) um'
    ≡ (skipped ∷ skipped ∷ [], um')
unfolding run_scan_cycle is_before find_candidates best_offer offer_by_mode known_offer section_name
    str_eq is_blacklisted lookup purge_blacklist should_switch candidate_of
scan_all_broken_example =
    scan_all_broken (scan_at (at_unix 1000)) (scan_at (at_unix 1030) ∷ scan_at (at_unix 1300) ∷ [])
      manager home_candidate (omega arith) refl (omega arith, (omega arith, tt))

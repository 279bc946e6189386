-- ===== src/Station/Tests.antt =====
-- Witnesses and tests for the station.
use muondetector_cluster.Prelude.{◌≡◌, refl, [], ◌∷◌, arith}
use muondetector_cluster.Prelude.Int.{pos}
use muondetector_cluster.Prelude.Samples.{whole}
use muondetector_cluster.Prelude.Assoc.{lookup}
use muondetector_cluster.Event.Samples.{lone, nowhere, nobody}
use muondetector_cluster.Status.{Status}
use muondetector_cluster.Detector.Samples.{detector, quiet}
use muondetector_cluster.Station.{Station, DetectorInfo, get_event, process_info_message}
use muondetector_cluster.Station.Forward.{get_event-expected, expected}
use muondetector_cluster.Station.Mirror.{Mirrors, get_event-Mirrors, process_info_message-Mirrors}

-- The station at the start, and after the information of a first detector.
abbrev started : Station
started = record { detectors = []; world = quiet; last = pos 0 }

abbrev info : DetectorInfo
info = record { location = nowhere; hash = 3; userinfo = nobody }

started-Mirrors : Mirrors started
unfolding lookup
started-Mirrors = record {
  sorted = tt;
  shown_sorted = tt;
  named = λ h d found. ground arith;
  agrees = λ j. refl;
  idle = refl;
}

-- A station of one reliable detector.
abbrev single : Station
single = record started { detectors = (3, detector 3 Status.reliable) ∷ [] }

get_event-expected_example : (get_event whole (lone 3 100) single).1 ≡ expected (lone 3 100) single
get_event-expected_example = get_event-expected whole (lone 3 100) single

first-Mirrors : Mirrors (process_info_message whole (pos 7) info started)
first-Mirrors = process_info_message-Mirrors whole (pos 7) info started started-Mirrors

get_event-Mirrors_example :
    Mirrors (get_event whole (lone 3 100) (process_info_message whole (pos 7) info started)).0
get_event-Mirrors_example =
    get_event-Mirrors whole (lone 3 100) (process_info_message whole (pos 7) info started)
      first-Mirrors

-- Much later the detector has missed its logs, and is deleted.
abbrev informed : Station
informed = process_info_message whole (pos 7) info started

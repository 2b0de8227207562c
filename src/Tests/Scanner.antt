-- ===== src/Tests/Scanner.antt =====
-- Scanning, and what a device advertises, at concrete inputs.
use bluepy.Common.Hex.Digits.{All}
use bluepy.Tests.Client.{found-IsReport}
use bluepy.Client.Uuid.Shown.{make_uuid-uuid_text}
use bluepy.Status.Lines.{status_fields}
use bluepy.Client.Parse.{ok}
use bluepy.Client.Peripheral.{fetched}
use bluepy.Protocol.{rsp_status}
use bluepy.Client.Talk.{mgmt_types}
use bluepy.Client.Scan.Values.Services.{get_value-services, uuid_of, concat}
use bluepy.Client.Scanner.Devices.{report_on}
use bluepy.Tests.{found}
use bluepy.Client.Scanner.Control.Starting.{scanner_start-answered, scanner_start-busy, succeeded}
use bluepy.Client.Parse.Plain.{plain-IsCleanText}
use bluepy.Protocol.Responses.{line}
use bluepy.Client.Scanner.Control.Processing.{
  process-devices, process-restarts, device_addr, take_devices, device_line,
}
use bluepy.Client.Scan.{new_entry, set_item, take_report, update}
use bluepy.Main.{initial}
use bluepy.Client.Scan.Values.{uuids, get_value}
use bluepy.Client.Scanner.{find_device, put_device, Discovery, take_scan, ScannedDevices}
use bluepy.Client.Wait.{is_skipped, on_line}
use bluepy.Client.Peripheral.Connect.Handshake.{IsCleanStatus}
use bluepy.Client.Scanner.Control.{stat_types, process, scanner_start}
use bluepy.Client.Uuid.{uuid_text, make_uuid}
use bluepy.Client.Talk.Lines.{mgmt_line, IsIgnored, IsAnswer}
use bluepy.Common.{
  arith, map, some, ◌++◌, ◌≡◌, refl, replicate, codes, Text, false, none, true, List, [], ◌∷◌,
}

abbrev hello : List Text
hello = codes "# hello\n" ∷ []

hello-IsIgnored : (types : List Text) → IsIgnored types (codes "# hello\n")
unfolding on_line is_skipped
hello-IsIgnored types = refl

badstate-IsAnswer : IsAnswer (codes "badstate") [] hello
badstate-IsAnswer = record {
  clean = plain-IsCleanText (codes "badstate") refl;
  fields = tt;
  ignored = (hello-IsIgnored mgmt_types, tt);
}

scanner_start-answered_example :
    scanner_start true (succeeded hello (hello ++ (mgmt_line (codes "badstate") [] ∷ [])))
    ≡ record { outcome = fetched tt; written = codes "le on\n" ∷ codes "pasv\n" ∷ []; left = [] }
scanner_start-answered_example =
    scanner_start-answered true (codes "badstate") [] hello hello []
      (hello-IsIgnored mgmt_types, tt) badstate-IsAnswer refl

initial-IsCleanStatus : IsCleanStatus initial
initial-IsCleanStatus = (plain-IsCleanText (codes "(null)") refl, plain-IsCleanText [] refl)

scanner_start-busy_example :
    scanner_start false (
      succeeded hello (
        hello
        ++ (mgmt_line (codes "busy") []
            ∷ succeeded hello
                (hello ++ (line rsp_status (status_fields initial) ∷ succeeded hello [])))))
    ≡ record {
      outcome = fetched tt;
      written = codes "le on\n" ∷ codes "scan\n" ∷ codes "scanend\n" ∷ codes "scan\n" ∷ [];
      left = [];
    }
scanner_start-busy_example =
    scanner_start-busy false initial hello hello hello hello hello [] refl initial-IsCleanStatus
      (hello-IsIgnored mgmt_types, tt) (hello-IsIgnored mgmt_types, tt)
      (hello-IsIgnored mgmt_types, tt) (hello-IsIgnored stat_types, tt)
      (hello-IsIgnored mgmt_types, tt)

process-restarts_example :
    process false 1 ([], []) (line rsp_status (status_fields initial) ∷ succeeded hello [])
    ≡ record { outcome = fetched ([], []); written = codes "scan\n" ∷ []; left = [] }
unfolding process
process-restarts_example =
    process-restarts false 0 initial ([], []) hello [] refl initial-IsCleanStatus
      (hello-IsIgnored mgmt_types, tt)

-- What the client knows of the device that was found.
abbrev found_now : ScannedDevices × List Discovery
found_now =
    let (dev, is_new_data) = take_report (report_on found) new_entry in
    (
      (device_addr found, dev) ∷ [],
      record { dev = dev; is_new_dev = true; is_new_data = is_new_data } ∷ [],
    )

take_devices-found : take_devices (found ∷ []) ([], []) ≡ some found_now
unfolding take_scan update put_device find_device take_report
take_devices-found = refl

process-devices_example :
    process false 2 ([], []) (device_line found ∷ [])
    ≡ record { outcome = fetched found_now; written = []; left = [] }
process-devices_example =
    process-devices false 2 (found ∷ []) ([], []) found_now (found-IsReport, tt) (omega arith)
      take_devices-found

-- Two services of 16 bits, and a byte too many.
abbrev chunks : List Text
chunks = (0x0f ∷ 0x18 ∷ []) ∷ (0x0a ∷ 0x18 ∷ []) ∷ []

get_value-services_example :
    (get_value (λ s. none) 3 (set_item 3 (concat chunks ++ 7 ∷ []) [])
      ≡ ok (uuids (map (λ c. some (uuid_of c)) chunks)))
    × All (λ c. make_uuid (uuid_text (uuid_of c)) ≡ ok (uuid_of c)) chunks
get_value-services_example =
    get_value-services (λ s. none) 3 2 chunks (7 ∷ []) [] refl refl
      ((refl, (omega arith, (omega arith, tt))), ((refl, (omega arith, (omega arith, tt))), tt))
      (omega arith)

make_uuid-uuid_text_example : make_uuid (uuid_text (replicate 16 7)) ≡ ok (replicate 16 7)
make_uuid-uuid_text_example = make_uuid-uuid_text (replicate 16 7) refl (ground arith)

-- ===== src/Dnsbl/Tests.antt =====
-- A query for 192.0.2.1, in upper case.
use federloom.Prelude.{◌≡◌, refl, ◌||◌, if◌then◌else◌, String, str_eq, some, none, ok, [], ◌∷◌}
use federloom.Float.{Fixed, pos, fixed_float, num, ◌<?◌}
use federloom.Proto.{is_zero}
use federloom.Store.{ScoreRecord, empty_record}
use federloom.Netutil.{Netip, v4}
use federloom.Enforce.{contains_char}
use federloom.Dnsbl.{
  Server, Question, a_type, name_error, no_error, answer, payload, join, asked_ip, handle_dns,
}
use federloom.Dnsbl.Names.{dns_name, asked_ip-dns_name}
use federloom.Dnsbl.Laws.{handle_dns_lem}

asked_ip-dns_name_example :
    asked_ip "dnsbl.test." (dns_name "dnsbl.test." "192" "0" "2" "1")
    ≡ some (join "." ("192" ∷ "0" ∷ "2" ∷ "1" ∷ []))
unfolding contains_char
asked_ip-dns_name_example = asked_ip-dns_name "dnsbl.test." "192" "0" "2" "1" refl refl refl refl

abbrev lower : String → String
lower s = if str_eq s "1.2.0.192.DNSBL.test." then "1.2.0.192.dnsbl.test." else s

abbrev net : Netip
net = record {
  parse_addr = λ s. some (v4 3221225985);
  parse_prefix = λ s. none;
  show_addr = λ a. "192.0.2.1";
  show_prefix = λ p. "";
}

abbrev server : Server Fixed
server = record {
  cfg = record { addr = ":53"; zone = "dnsbl.test"; min_score = pos 0 };
  block_threshold = pos 80000;
  zone = "dnsbl.test.";
}

abbrev listed : ScoreRecord Fixed
listed = record empty_record { score = pos 90000; last_seen = 5; reasons = "ssh-probe" ∷ [] }

abbrev question : Question
question = record { name = "1.2.0.192.DNSBL.test."; qtype = a_type }

handle_dns_lem_example :
    handle_dns (λ x. "90.0") lower net server (λ ip. ok listed) (some question) ≡ (
      if is_zero 5 || (pos 90000 <? (if fixed_float.eq (pos 0) (num 0) then pos 80000 else pos 0))
      then name_error
      else no_error (answer question (payload (λ x. "90.0") listed)))
unfolding contains_char join
handle_dns_lem_example =
    handle_dns_lem (λ x. "90.0") lower net server (λ ip. ok listed) question "192" "0" "2" "1"
      (v4 3221225985) refl refl refl refl refl refl refl

-- ===== src/Dnsbl/Laws.antt =====
-- What a client of the blocklist is told.
use federloom.Prelude.{
  ◌≡◌, refl, true, ◌||◌, if◌then◌else◌, arith, String, [], ◌∷◌, some, Result, ok, err,
}
use federloom.Float.{Float, num, ◌<?◌}
use federloom.Proto.{is_zero}
use federloom.Store.{ScoreRecord, StoreError}
use federloom.Netutil.{Addr, Netip, unmap, is4}
use federloom.Dnsbl.{
  Server, Question, name_error, no_error, join, min_score, payload, answer, reply_record,
  handle_dns,
}
use federloom.Dnsbl.Names.{IsLabel, dns_name, asked_ip-dns_name}

module _ {F : Type 0} ⦃f : Float F⦄ (show_score : F → String) where
  -- For an IPv4 address of four labels without a dot: a query whose name, in lower case, is the
  -- reversed address under the server's zone is answered from the record of that very address. It
  -- is told the address is not there when the store fails, has no record of it, or has a score
  -- below the least one, which is the block threshold where none is set; otherwise it is answered
  -- with the records of its type.
  pub handle_dns_lem :
      (lower : String → String) (net : Netip) (s : Server F)
      (get_score : String → Result StoreError (ScoreRecord F)) (q : Question) (a b c d : String)
      (addr : Addr)
      → IsLabel a
      → IsLabel b
      → IsLabel c
      → IsLabel d
      → lower q.name ≡ dns_name s.zone a b c d
      → net.parse_addr (join "." (a ∷ b ∷ c ∷ d ∷ [])) ≡ some addr
      → is4 (unmap addr) ≡ true
      → handle_dns show_score lower net s get_score (some q)
        ≡ elim (get_score (join "." (a ∷ b ∷ c ∷ d ∷ []))) [
          | err e ↦ name_error
          | ok r ↦
              if is_zero r.last_seen
                || (r.score <? (
                    if f.eq s.cfg.min_score (num 0) then s.block_threshold else s.cfg.min_score))
              then name_error
              else no_error (answer q (payload show_score r))
        ]
  unfolding handle_dns reply_record min_score
  handle_dns_lem lower net s get_score q a b c d addr la lb lc ld name parses four =
      rw (name, asked_ip-dns_name s.zone a b c d la lb lc ld, parses, four, handle_dns)
        (told (get_score (join "." (a ∷ b ∷ c ∷ d ∷ []))))
    where
      told :
          (r : Result StoreError (ScoreRecord F))
          → reply_record show_score s q r ≡ elim r [
            | err e ↦ name_error
            | ok r ↦
                if is_zero r.last_seen
                  || (r.score <? (
                      if f.eq s.cfg.min_score (num 0) then s.block_threshold else s.cfg.min_score))
                then name_error
                else no_error (answer q (payload show_score r))
          ]
      told (err e) = refl
      told (ok r) = ground arith

-- ===== src/Tests/SingleHost.antt =====
-- A store for concrete inputs: the handlers of backend/kvs_server.h behind a look-up that always
-- gives one host. The look-up stands for no code.
use penn_cloud.Prelude.{Bytes, ◌≡◌, refl, false, bytes_eq}
use penn_cloud.Tablet.{Tablet}
use penn_cloud.Rpc.{client_result}
use penn_cloud.Service.{Service, is_err, Serves, Answers}
use penn_cloud.SingleNode.{handle, done, read_reply}
use penn_cloud.SingleNode.Serving.{Shows, read_reply-value, read_reply-missing, handle-Shows}

unfoldable pub service : Bytes → Service Tablet
unfolding handle read_reply
service host = record {
  lookup = λ t key. (t, host);
  get = λ t h r c. read_reply r c t;
  write = λ t h op. let (u, status) = handle op t in (u, client_result status (done op));
}

abbrev pub At : Tablet → Bytes → Bytes → Type 0
At t host key = Unit

pub service-Serves : (host : Bytes) → is_err host ≡ false → Serves (service host) Shows At
unfolding service
service-Serves host ok = record {
  lookup_shows = λ t f key shows. shows;
  lookup_host = λ t f key shows. ok;
  lookup_at = λ t f key shows. tt;
  get_value = λ t f h r c v shows at e. read_reply-value t f r c v shows e;
  get_missing = λ t f h r c shows at e. read_reply-missing t f r c shows e;
  write_shows = λ t f h op shows at. handle-Shows op t f shows;
  write_keeps_at = λ t host key h op at. at;
}

pub service-Answers : (host : Bytes) → Answers (service host) Shows At
unfolding service handle client_result done is_err bytes_eq
service-Answers host = record {
  put_ok = λ t f h r c v shows at. refl;
  delete_ok = λ t f h r c shows at. refl;
}

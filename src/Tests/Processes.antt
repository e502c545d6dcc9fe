-- ===== src/Tests/Processes.antt =====
-- The three processes in one environment, where only the address of Redis is set.
use guangyang.Prelude.{◌≡◌, refl, true, false, [], none, some, if◌then◌else◌}
use guangyang.Text.{codes, ◌===◌, trim_space, is_blank}
use guangyang.Errors.{ok}
use guangyang.Prelude.Int.{pos}
use guangyang.Streamq.{new_queue, new_consumer, set_concurrency}
use guangyang.RedisLock.{new_client}
use guangyang.Processes.{
  Outside, Server, CompareProcess, PayProcess, start_server, start_compare_worker,
  start_payment_worker,
}
use guangyang.Processes.Queues.{of_queue, of_consumer, start-linked}

abbrev outside : Outside (Unit {0})
outside = record {
  env = λ name. if name === codes "REDIS_ADDR" then codes "redis:6379" else [];
  redis_store = λ a p. none;
  create_group = λ s g. none;
  busy = λ e. false;
  oss_from_env = some (ok tt);
  generated = codes "c-1";
}

abbrev server : Server (Unit {0})
server = record {
  tmp_root = codes "./tmp";
  oss = some tt;
  redis = (codes "redis:6379", 0);
  queue = new_queue true (codes "gy:comparejobs:stream") (codes "gy-compare") (pos 100_000);
  address = codes ":8080";
}

abbrev compare_process : CompareProcess (Unit {0})
compare_process = record {
  tmp_root = codes "./tmp";
  oss = tt;
  redis = (codes "redis:6379", 0);
  pay_queue = new_queue true (codes "gy:comparejobs:paygate") (codes "gy-paygate") (pos 100_000);
  lock = new_client (codes "gy:lock:comparejob:");
  consumer =
      set_concurrency (pos 4)
        (new_consumer true (codes "gy:comparejobs:stream") (codes "gy-compare") [] (codes "c-1"));
  metrics = codes ":9090";
}

abbrev pay_process : PayProcess
pay_process = record {
  redis = (codes "redis:6379", 0);
  lock = new_client (codes "gy:lock:comparejob:");
  consumer =
      set_concurrency (pos 8)
        (new_consumer true (codes "gy:comparejobs:paygate") (codes "gy-paygate") [] (codes "c-1"));
  metrics = codes ":9090";
}

start-linked_example :
    (server.redis ≡ compare_process.redis)
    × (compare_process.redis ≡ pay_process.redis)
    × (of_queue server.queue ≡ of_consumer compare_process.consumer)
    × (of_queue compare_process.pay_queue ≡ of_consumer pay_process.consumer)
unfolding start_server start_compare_worker start_payment_worker ◌===◌ is_blank trim_space new_queue
    new_client new_consumer set_concurrency
start-linked_example =
    start-linked outside outside outside server compare_process pay_process
      (record {
        address = refl;
        database = refl;
        pay_address = refl;
        pay_database = refl;
        key = refl;
        group = refl;
        pay_key = refl;
        pay_group = refl;
      })
      refl refl refl

-- ===== src/Examples/Serving.antt =====
-- Downloads and new tasks over HTTP.
use rappa_master.Base.Assoc.{lookup}
use rappa_master.Base.Bytes.{bytes_of}
use rappa_master.Base.{◌≡◌, refl, pos, true, some, inr, []}
use rappa_master.Paradigm.Model.{dataframe, network, baed, name_to_model_type, output_type}
use rappa_master.Collector.{new_collector}
use rappa_master.Task.{Task, new_task}
use rappa_master.Query.Request.{atoi, read_digits, parse_collect, text_of, number_of}
use rappa_master.Query.Response.{send_response}
use rappa_master.Query.Build.{build_query_from_get_request, build_case, new_collect_task_query}
use rappa_master.Query.Dispatch.{Sources, process_query}
use rappa_master.Http.{
  HttpInitTaskRequest, unknown_model, created, init_task, handle_download, ask, file_of, file,
  handler_panics,
}
use rappa_master.Http.Delivery.{IsDelivered, handle_download-IsDelivered}
use rappa_master.Examples.Answering.{request, sources}
use rappa_master.Examples.Querying.{sha256, no_tree, no_proof}

-- The collector of the task is there.
abbrev with_reader : Sources
with_reader = record sources {
  recover_collector = λ task. some (inr (new_collector "task" dataframe));
  collect = λ request collector. inr (some 7);
}

handle_download-IsDelivered_example :
    IsDelivered
      (build_query_from_get_request request)
      with_reader
      (handle_download sha256 no_tree no_proof request with_reader)
handle_download-IsDelivered_example =
    handle_download-IsDelivered sha256 no_tree no_proof request with_reader

served : handle_download sha256 no_tree no_proof request with_reader ≡ file 7
unfolding handle_download ask build_query_from_get_request build_case new_collect_task_query
    parse_collect text_of number_of process_query send_response file_of lookup atoi bytes_of
    read_digits
served = refl

-- Without a collector the error response has no reader.
panicked : handle_download sha256 no_tree no_proof request sources ≡ handler_panics
unfolding handle_download ask build_query_from_get_request build_case new_collect_task_query
    parse_collect text_of number_of process_query send_response file_of lookup atoi bytes_of
    read_digits
panicked = refl

abbrev new_request : HttpInitTaskRequest
new_request = record {
  name = "graphs";
  size = pos 500;
  slot_size = pos 0;
  model = "BAED";
  params = [];
  is_reliable = true;
}

abbrev graphs : Task
graphs = new_task 3 "task" "graphs" baed (pos 10000) [] (pos 500) true

created_graphs :
    init_task 3 "task" (some new_request)
    ≡ created (record graphs { collector = some (new_collector "task" network) })
unfolding init_task new_task name_to_model_type output_type
created_graphs = refl

refuses_model : init_task 3 "task" (some (record new_request { model = "GAN" })) ≡ unknown_model
unfolding init_task name_to_model_type
refuses_model = refl
